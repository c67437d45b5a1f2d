-- ===== src/Sniffer/Profiles.antt =====
-- tun/sniffer.rs over crypto/tls_raw.rs: the server name of each imitated browser's message is found.
use mirage_android.Prelude.{
  ℕ, zero, suc, ◌+◌, ◌-◌, ◌*◌, ◌≤◌, ◌<◌, ◌≡◌, refl, ap, ◌∙◌, true, some, List, [], ◌∷◌, ◌++◌, arith,
  inl, inr, number_key, Text, length, All, length-append,
}
use mathlib.Core.List.{append_assoc}
use mirage_android.Data.Texts.{clean_domain}
use mirage_android.Hello.Parts.{Draws, IsDraws, ext, sni_ext, assemble, words, concat}
use mirage_android.Hello.Browsers.{
  okhttp_before, okhttp_after, okhttp_padding, build_okhttp, grease_ciphers, firefox_after,
  firefox_ciphers, build_firefox, chromium_middle, shuffle, build_chromium, Profile, chromium,
  firefox, ok_http, build_with_profile,
}
use mirage_android.Hello.Shuffle.{All-shuffle, Has, Has-shuffle, length-shuffle}
use mirage_android.Sniffer.Tls.{is_utf8, ext_loop, parse_tls_sni}
use mirage_android.Sniffer.ServerName.{
  IsOther, ext_loop-other, ext_loop-sni, parse_tls_sni-assemble, parse_tls_sni-sni_ext,
  length-sni_ext, length-ext,
}
use mirage_android.Sniffer.Sizes.{
  length-concat, IsGrease-range, okhttp_after-Short, firefox_after-Short, Named,
  chromium_middle-Named, chromium_middle-Has, chromium_middle_count, okhttp_after_count,
  firefox_after_count, padding_bound,
}

module _ (host : Text) (short : length host ≤ 255) (utf8 : is_utf8 host ≡ true) where
  Named-bounds : (e : Text) → Named host e → (length e ≤ 1400) × (0 < length e)
  Named-bounds e (inl (o, s)) = (s, omega (arith, ap length o.built, length-ext o.ext_type o.body))
  Named-bounds e (inr same) = omega (arith, ap length same, length-sni_ext host)

  concat-bounds :
      (es : List Text)
      → All (Named host) es
      → (length (concat es) ≤ 1400 * length es) × (length es ≤ length (concat es))
  concat-bounds [] h = omega arith
  concat-bounds (e ∷ es) (n, ns) =
      omega (arith, length-append e (concat es), Named-bounds e n, concat-bounds es ns)

  -- Wherever the name stands among the others, it is found.
  ext_loop-named :
      (fuel : ℕ) (es : List Text) (after : Text)
      → length es < fuel
      → All (Named host) es
      → Has (sni_ext host) es
      → ext_loop fuel (concat es ++ after) ≡ some (clean_domain host)
  ext_loop-named zero es after enough named has = absurd (omega arith)
  ext_loop-named (suc fuel) [] after enough named has = absurd (omega (arith, has.1))
  ext_loop-named (suc fuel) (e ∷ es) after enough (inr same, ns) has =
      rw (append_assoc e (concat es) after, same)
        (ext_loop-sni fuel host (concat es ++ after) (omega arith) utf8)
  ext_loop-named (suc fuel) (e ∷ es) after enough (inl (o, s), ns) (zero, lt, same) =
      rw (append_assoc e (concat es) after, same)
        (ext_loop-sni fuel host (concat es ++ after) (omega arith) utf8)
  ext_loop-named (suc fuel) (e ∷ es) after enough (inl (o, s), ns) (suc k, lt, same) =
      rw (append_assoc e (concat es) after) (
        ext_loop-other fuel e (concat es ++ after) o
        ∙ ext_loop-named fuel es after (omega arith) ns (k, omega arith, same))

  module _ (d : Draws) (draws : IsDraws d) (session_id client_random : Text)
      (sid_fits : length session_id ≤ 32) (random_fits : length client_random ≡ 32)
      (more : Text) where
    first-IsOther : IsOther (ext d.g_first [])
    first-IsOther =
        let range = IsGrease-range d.g_first draws.first_grease in
        record {
          ext_type = d.g_first;
          body = [];
          built = refl;
          no_name = range.0;
          type_fits = range.1;
          body_fits = omega arith;
        }

    okhttp_before_others : All IsOther (okhttp_before d) × (length (concat (okhttp_before d)) ≡ 4)
    unfolding okhttp_before
    okhttp_before_others = (
      (first-IsOther, tt),
      omega (arith, length-ext d.g_first [], length-append (ext d.g_first []) []),
    )

    okhttp_found :
        parse_tls_sni (build_okhttp d host session_id client_random ++ more)
        ≡ some (clean_domain host)
    unfolding build_okhttp
    okhttp_found =
        let before : Text = concat (okhttp_before d) in
        let after : Text = concat (okhttp_after d) in
        let trial : Text =
          assemble session_id client_random (grease_ciphers d)
            (before ++ (sni_ext host ++ after)) in
        let padding : Text = okhttp_padding (length trial - 5) in
        let size = length-concat (okhttp_after d) (okhttp_after-Short d draws) in
        let moved : (before ++ (sni_ext host ++ after)) ++ padding
            ≡ before ++ (sni_ext host ++ (after ++ padding)) =
          append_assoc before (sni_ext host ++ after) padding
          ∙ ap (λ (t : Text). before ++ t) (append_assoc (sni_ext host) after padding) in
        let (others, four) = okhttp_before_others in
        ap
          (λ (t : Text).
            parse_tls_sni (assemble session_id client_random (grease_ciphers d) t ++ more))
          moved
        ∙ parse_tls_sni-sni_ext session_id client_random (grease_ciphers d) host (after ++ padding)
            more (okhttp_before d) (omega arith) random_fits others utf8
            (omega (
              arith,
              size,
              four,
              okhttp_after_count d,
              padding_bound (length trial - 5),
              length-append before (sni_ext host ++ (after ++ padding)),
              length-append (sni_ext host) (after ++ padding),
              length-append after padding,
              length-sni_ext host,
            ))

    firefox_found :
        parse_tls_sni (build_firefox d host session_id client_random ++ more)
        ≡ some (clean_domain host)
    unfolding build_firefox
    firefox_found =
        let after : Text = concat (firefox_after d) in
        let size = length-concat (firefox_after d) (firefox_after-Short d draws) in
        parse_tls_sni-sni_ext session_id client_random (words firefox_ciphers) host after more []
          (omega arith) random_fits tt utf8
          (omega (
            arith,
            size,
            firefox_after_count d,
            length-append (sni_ext host) after,
            length-sni_ext host,
          ))

    chromium_found :
        parse_tls_sni (build_chromium d host session_id client_random ++ more)
        ≡ some (clean_domain host)
    unfolding build_chromium
    chromium_found =
        let middle : List Text = chromium_middle d host in
        let n : ℕ = length middle - 1 in
        let sixteen : length middle ≡ 16 = chromium_middle_count d host in
        let es : List Text = shuffle d n middle in
        let last : Text = ext d.g_last (0x00 ∷ []) in
        let named : All (Named host) es =
          All-shuffle (Named host) d n middle draws (omega arith)
            (chromium_middle-Named d host draws) in
        let has : Has (sni_ext host) es =
          Has-shuffle (sni_ext host) d n middle draws (omega arith) (chromium_middle-Has d host) in
        let count : length es ≡ length middle = length-shuffle d n middle in
        let bounds = concat-bounds es named in
        let first : Text = ext d.g_first [] in
        let exts : Text = first ++ (concat es ++ last) in
        let size : length exts ≡ 4 + length (concat es) + 5 = omega (
          arith,
          length-append first (concat es ++ last),
          length-append (concat es) last,
          length-ext d.g_first [],
          length-ext d.g_last (0x00 ∷ []),
        ) in
        let round : length exts ≡ suc (3 + length (concat es) + 5) = omega (arith, size) in
        parse_tls_sni-assemble session_id client_random (grease_ciphers d) exts more (omega arith)
          random_fits (omega (arith, size, bounds, count, sixteen))
        ∙ ap (λ (m : ℕ). ext_loop m exts) round
        ∙ ext_loop-other (3 + length (concat es) + 5) first (concat es ++ last) first-IsOther
        ∙ ext_loop-named (3 + length (concat es) + 5) es last (omega (arith, bounds)) named has

-- For a host of at most 255 bytes that is UTF-8, a session id and random bytes of 32 bytes each,
-- and draws of the sizes and from the ranges asked for: whichever of the three browsers a
-- ClientHello imitates, and however its extensions are shuffled, the sniffer finds the host in it,
-- cleaned, also when more bytes follow.
pub parse_tls_sni-build_with_profile :
    (d : Draws) (profile : Profile) (host session_id client_random more : Text)
    → IsDraws d
    → length host ≤ 255
    → is_utf8 host ≡ true
    → length session_id ≡ 32
    → length client_random ≡ 32
    → parse_tls_sni (build_with_profile d profile host session_id client_random ++ more)
      ≡ some (clean_domain host)
unfolding build_with_profile
parse_tls_sni-build_with_profile d chromium host session_id client_random more draws short utf8
      sid_fits random_fits =
    chromium_found host short utf8 d draws session_id client_random (omega arith) random_fits more
parse_tls_sni-build_with_profile d firefox host session_id client_random more draws short utf8
      sid_fits random_fits =
    firefox_found host short utf8 d draws session_id client_random (omega arith) random_fits more
parse_tls_sni-build_with_profile d ok_http host session_id client_random more draws short utf8
      sid_fits random_fits =
    okhttp_found host short utf8 d draws session_id client_random (omega arith) random_fits more
