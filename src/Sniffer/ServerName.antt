-- ===== src/Sniffer/ServerName.antt =====
-- tun/sniffer.rs: the name that is put into a ClientHello is found in it.
use mirage_android.Prelude.{
  ℕ, zero, suc, ◌+◌, ◌*◌, ◌/◌, ◌%◌, ◌^◌, ◌≤◌, ◌<◌, ◌≡◌, refl, ap, ◌∙◌, true, false, Option, some,
  List, [], ◌∷◌, ◌++◌, arith, if◌then◌else◌, Text, length, ltb, ltb-ge, leb, ◌==◌, All,
  length-append, take-append, drop-append, take-length,
}
use mathlib.Core.List.{append_assoc}
use mirage_android.Data.Texts.{clean_domain}
use mirage_android.Data.Numerals.{◌>>=◌}
use mirage_android.Dns.Wire.{be16}
use mirage_android.Hello.Parts.{ext, sni_ext, hello_body, assemble, concat}
use mirage_android.Sniffer.Tls.{
  is_utf8, name_loop, name_of, or_else, ext_loop, skip, hello_exts, parse_tls_sni,
}

-- An extension that does not hold a server name.
pub record IsOther (e : Text) : Type 0 where
  pub ext_type : ℕ
  pub body : Text
  pub built : e ≡ ext ext_type body
  pub no_name : 0 < ext_type
  pub type_fits : ext_type < 2 ^ 16
  pub body_fits : length body < 2 ^ 16

word_value : (n : ℕ) → n < 2 ^ 16 → n / 256 % 256 * 256 + n % 256 ≡ n
word_value n h = omega arith

leb-true : (a b : ℕ) → a ≤ b → leb a b ≡ true
leb-true a b h = ground arith

name_of-entry :
    (host : Text)
    → length host + 3 < 2 ^ 16
    → is_utf8 host ≡ true
    → name_of (be16 (length host + 3) ++ (0 ∷ (be16 (length host) ++ host)))
      ≡ some (clean_domain host)
unfolding name_loop
name_of-entry host short utf8 =
    let size = word_value (length host) (omega arith) in
    rw (size, leb-true (length host) (length host) (omega arith), take-length host, utf8) refl

-- A round reads one extension.
ext_loop-ext :
    (fuel t : ℕ) (body rest : Text)
    → t < 2 ^ 16
    → length body < 2 ^ 16
    → ext_loop (suc fuel) (ext t body ++ rest)
      ≡ (if t == 0 then or_else (name_of body) (ext_loop fuel rest) else ext_loop fuel rest)
unfolding ext_loop ext
ext_loop-ext fuel t body rest type_fits fits =
    let size = word_value (length body) fits in
    let kind = word_value t type_fits in
    let there : ltb (length (body ++ rest)) (length body) ≡ false =
      ltb-ge (length (body ++ rest)) (length body) (omega (arith, length-append body rest)) in
    rw (size, kind, there, take-append body rest, drop-append body rest) refl

pub ext_loop-other :
    (fuel : ℕ) (e rest : Text) → IsOther e → ext_loop (suc fuel) (e ++ rest) ≡ ext_loop fuel rest
ext_loop-other fuel e rest o =
    let zero_test : (o.ext_type == 0) ≡ false = ground (arith, o.no_name) in
    rw o.built
      (ext_loop-ext fuel o.ext_type o.body rest o.type_fits o.body_fits ∙ rw zero_test refl)

pub ext_loop-sni :
    (fuel : ℕ) (host rest : Text)
    → length host + 5 < 2 ^ 16
    → is_utf8 host ≡ true
    → ext_loop (suc fuel) (sni_ext host ++ rest) ≡ some (clean_domain host)
unfolding sni_ext
ext_loop-sni fuel host rest short utf8 =
    let entry : Text = 0 ∷ (be16 (length host) ++ host) in
    ext_loop-ext fuel 0 (be16 (length entry) ++ entry) rest (omega arith) (omega arith)
    ∙ rw (name_of-entry host (omega arith) utf8) refl

-- Behind other extensions the name is found, if there is fuel for them.
ext_loop-exts :
    (fuel : ℕ) (before : List Text) (host after : Text)
    → length before < fuel
    → All IsOther before
    → length host + 5 < 2 ^ 16
    → is_utf8 host ≡ true
    → ext_loop fuel (concat before ++ (sni_ext host ++ after)) ≡ some (clean_domain host)
ext_loop-exts zero before host after enough others short utf8 = absurd (omega arith)
ext_loop-exts (suc fuel) [] host after enough others short utf8 =
    ext_loop-sni fuel host after short utf8
ext_loop-exts (suc fuel) (e ∷ es) host after enough (o, os) short utf8 =
    rw (append_assoc e (concat es) (sni_ext host ++ after)) (
      ext_loop-other fuel e (concat es ++ (sni_ext host ++ after)) o
      ∙ ext_loop-exts fuel es host after (omega arith) os short utf8)

-- Each extension has four bytes at least.
length-others : (es : List Text) → All IsOther es → length es ≤ length (concat es)
unfolding ext
length-others [] h = omega arith
length-others (e ∷ es) (o, os) =
    omega (arith, length-append e (concat es), length-others es os, ap length o.built)

skip-append : (front rest : Text) (n : ℕ) → n ≡ length front → skip n (front ++ rest) ≡ some rest
skip-append front rest n e =
    let there : ltb (length (front ++ rest)) (length front) ≡ false =
      ltb-ge (length (front ++ rest)) (length front) (omega (arith, length-append front rest)) in
    rw (e, there, drop-append front rest) refl

-- The extensions of a message are found behind its other fields.
hello_exts-body :
    (session_id client_random cipher_suites extensions : Text)
    → length session_id < 256
    → length client_random ≡ 32
    → length cipher_suites < 2 ^ 16
    → length extensions < 2 ^ 16
    → hello_exts (hello_body session_id client_random cipher_suites extensions) ≡ some extensions
unfolding hello_body
hello_exts-body session_id client_random cipher_suites extensions sid_fits random_fits ciphers_fit
      exts_fit =
    let sid_len : length session_id % 256 ≡ length session_id = omega arith in
    let ciphers_len = word_value (length cipher_suites) ciphers_fit in
    let exts_len = word_value (length extensions) exts_fit in
    rw
      (
        skip-append (0x03 ∷ 0x03 ∷ client_random)
            (length session_id % 256
              ∷ (session_id
                  ++ (be16 (length cipher_suites)
                      ++ (cipher_suites
                          ++ (0x01 ∷ 0x00 ∷ (be16 (length extensions) ++ extensions))))))
            34 (omega arith),
        sid_len,
        drop-append session_id (
            be16 (length cipher_suites)
            ++ (cipher_suites ++ (0x01 ∷ 0x00 ∷ (be16 (length extensions) ++ extensions)))),
        ciphers_len,
        drop-append cipher_suites (0x01 ∷ 0x00 ∷ (be16 (length extensions) ++ extensions)),
        exts_len,
        take-length extensions,
      )
      refl

length-hello_body :
    (session_id client_random cipher_suites extensions : Text)
    → length client_random ≡ 32
    → length (hello_body session_id client_random cipher_suites extensions)
      ≡ 41 + length session_id + length cipher_suites + length extensions
unfolding hello_body
length-hello_body session_id client_random cipher_suites extensions e =
    let exts = be16 (length extensions) ++ extensions in
    let methods : Text = 0x01 ∷ 0x00 ∷ exts in
    let ciphers = be16 (length cipher_suites) ++ (cipher_suites ++ methods) in
    omega (
      arith,
      e,
      length-append client_random (length session_id % 256 ∷ (session_id ++ ciphers)),
      length-append session_id ciphers,
      length-append cipher_suites methods,
    )

pub parse_tls_sni-assemble :
    (session_id client_random cipher_suites extensions more : Text)
    → length session_id < 256
    → length client_random ≡ 32
    → length session_id + length cipher_suites + length extensions + 45 < 2 ^ 16
    → parse_tls_sni (assemble session_id client_random cipher_suites extensions ++ more)
      ≡ ext_loop (length extensions) extensions
unfolding parse_tls_sni assemble
parse_tls_sni-assemble session_id client_random cipher_suites extensions more sid_fits random_fits
      fits =
    let body : Text = hello_body session_id client_random cipher_suites extensions in
    let size = length-hello_body session_id client_random cipher_suites extensions random_fits in
    let hs_len = word_value (length body + 4) (omega (arith, size)) in
    let hs : Text =
      0x01 ∷ (length body / 2 ^ 16 % 256 ∷ length body / 2 ^ 8 % 256 ∷ length body % 256 ∷ body) in
    let whole : length hs / 256 % 256 * 256 + length hs % 256 ≡ length hs =
      word_value (length hs) (omega (arith, size)) in
    let found =
      hello_exts-body session_id client_random cipher_suites extensions sid_fits random_fits
        (omega arith) (omega arith) in
    rw whole (
      ap (λ (t : Text). hello_exts t >>= λ (exts : Text). ext_loop (length exts) exts)
        (take-append body more)
      ∙ ap (λ (o : Option Text). o >>= λ (exts : Text). ext_loop (length exts) exts) found)

pub length-ext : (t : ℕ) (body : Text) → length (ext t body) ≡ length body + 4
unfolding ext
length-ext t body = omega arith

pub length-sni_ext : (host : Text) → length (sni_ext host) ≡ length host + 9
unfolding sni_ext ext
length-sni_ext host = omega arith

-- Names.
pub parse_tls_sni-sni_ext :
    (session_id client_random cipher_suites host after more : Text) (before : List Text)
    → length session_id < 256
    → length client_random ≡ 32
    → All IsOther before
    → is_utf8 host ≡ true
    → length session_id
        + length cipher_suites
        + length (concat before ++ (sni_ext host ++ after))
        + 45
      < 2 ^ 16
    → parse_tls_sni (
        assemble session_id client_random cipher_suites (concat before ++ (sni_ext host ++ after))
        ++ more)
      ≡ some (clean_domain host)
parse_tls_sni-sni_ext session_id client_random cipher_suites host after more before sid_fits
      random_fits others utf8 fits =
    let extensions : Text = concat before ++ (sni_ext host ++ after) in
    let front = length-append (concat before) (sni_ext host ++ after) in
    let back = length-append (sni_ext host) after in
    let named = length-sni_ext host in
    parse_tls_sni-assemble session_id client_random cipher_suites extensions more sid_fits
      random_fits fits
    ∙ ext_loop-exts (length extensions) before host after
        (omega (arith, length-others before others)) others (omega arith) utf8
