-- ===== src/Sniffer/Sizes.antt =====
-- crypto/tls_raw.rs: the extensions of the hellos are no longer than they may be.
use mirage_android.Prelude.{
  ℕ, zero, suc, ◌+◌, ◌-◌, ◌*◌, ◌^◌, ◌≤◌, ◌<◌, ◌≡◌, refl, true, List, [], ◌∷◌, ◌++◌, arith, ◌⊎◌, inl,
  inr, contains, number_key, ltb, if_keeps, Text, length, All, length-append,
}
use mirage_android.Dns.Wire.{be16}
use mirage_android.Hello.Parts.{
  Draws, IsDraws, IsGrease, grease_values, coefficients, mlkem768_valid_encap_key, ext, sni_ext,
  words, concat, counted16,
}
use mirage_android.Hello.Browsers.{
  zeros, okhttp_after, okhttp_padding, firefox_after, hybrid_share, x25519_share, grease_share,
  ech_body, chromium_middle, ec_point_formats, alpn, alps, psk_modes, status_request, cert_compress,
  sigalgs, chromium_groups,
}
use mirage_android.Hello.Shuffle.{Has}
use mirage_android.Sniffer.ServerName.{IsOther, length-ext}

-- An extension of a bounded length.
abbrev Short : Text → Type 0
Short e = length e ≤ 1400

Short-ext : (t : ℕ) (body : Text) → length body ≤ 1396 → Short (ext t body)
Short-ext t body h = omega (arith, length-ext t body)

pub length-concat : (es : List Text) → All Short es → length (concat es) ≤ 1400 * length es
length-concat [] h = omega arith
length-concat (e ∷ es) (s, ss) = omega (arith, length-append e (concat es), length-concat es ss)

grease_range :
    (gs : List ℕ) (g : ℕ)
    → All (λ v. (0 < v) × (v < 2 ^ 16)) gs
    → contains gs g ≡ true
    → (0 < g) × (g < 2 ^ 16)
unfolding contains
grease_range [] g h e = cc
grease_range (v ∷ gs) g h e = ground (arith, grease_range gs g h.1)

pub IsGrease-range : (g : ℕ) → IsGrease g → (0 < g) × (g < 2 ^ 16)
IsGrease-range g e = grease_range grease_values g (omega arith) e

module _ (d : Draws) (draws : IsDraws d) where
  length-coefficients : (call n : ℕ) → length (coefficients d call n) ≡ 3 * n
  unfolding coefficients
  length-coefficients call zero = refl
  length-coefficients call (suc n) = omega (arith, length-coefficients (call + 2) n)

  length-encap_key : length (mlkem768_valid_encap_key d) ≡ 1184
  unfolding mlkem768_valid_encap_key
  length-encap_key = omega (
    arith,
    length-append (coefficients d 100 384) (d.fill 99 32),
    length-coefficients 100 384,
    draws.length-fill 99 32,
  )

  length-hybrid : length (hybrid_share d) ≡ 1220
  length-hybrid = omega (
    arith,
    length-append (mlkem768_valid_encap_key d) (d.fill 1 32),
    length-encap_key,
    draws.length-fill 1 32,
  )

  length-x25519 : length (x25519_share d) ≡ 36
  length-x25519 = omega (arith, draws.length-fill 2 32)

  length-ech : (aead payload : ℕ) → length (ech_body d aead payload) ≡ 42 + payload
  length-ech aead payload =
      let back : Text = be16 payload ++ d.fill 5 payload in
      let middle : Text = be16 32 ++ (d.fill 4 32 ++ back) in
      omega (
        arith,
        length-append (d.fill 3 1) middle,
        length-append (d.fill 4 32) back,
        draws.length-fill 3 1,
        draws.length-fill 4 32,
        draws.length-fill 5 payload,
      )

  okhttp_share : length (counted16 (grease_share d.g_key_share ++ x25519_share d)) ≤ 1396
  okhttp_share = omega (arith, length-x25519)

  firefox_share :
      length (
        counted16 (
          hybrid_share d ++ (x25519_share d ++ (be16 0x0017 ++ (be16 65 ++ (0x04 ∷ d.fill 6 64))))))
      ≤ 1396
  firefox_share =
      let p256 : Text = be16 0x0017 ++ (be16 65 ++ (0x04 ∷ d.fill 6 64)) in
      omega (
        arith,
        length-append (hybrid_share d) (x25519_share d ++ p256),
        length-append (x25519_share d) p256,
        length-hybrid,
        length-x25519,
        draws.length-fill 6 64,
      )

  chromium_share :
      length (counted16 (grease_share d.g_key_share ++ (hybrid_share d ++ x25519_share d))) ≤ 1396
  chromium_share =
      omega (arith, length-append (hybrid_share d) (x25519_share d), length-hybrid, length-x25519)

  pub okhttp_after-Short : All Short (okhttp_after d)
  unfolding okhttp_after
  okhttp_after-Short = omega (arith, length-ext, okhttp_share)

  pub firefox_after-Short : All Short (firefox_after d)
  unfolding firefox_after
  firefox_after-Short = omega (arith, length-ext, firefox_share, length-ech d.aead 239)

-- In a shuffled list each extension is the name's or another one.
abbrev pub Named : Text → Text → Type 0
Named host e = (IsOther e × Short e) ⊎ (e ≡ sni_ext host)

other :
    (t : ℕ) (body host : Text) → 0 < t → t < 2 ^ 16 → length body ≤ 1396 → Named host (ext t body)
other t body host positive fits short = inl (
  record {
    ext_type = t;
    body = body;
    built = refl;
    no_name = positive;
    type_fits = fits;
    body_fits = omega arith;
  },
  Short-ext t body short,
)

pub chromium_middle-Named :
    (d : Draws) (host : Text) → IsDraws d → All (Named host) (chromium_middle d host)
unfolding chromium_middle
chromium_middle-Named d host draws = (
  other 0x002b (6 ∷ words (d.g_versions ∷ 0x0304 ∷ 0x0303 ∷ [])) host (omega arith) (omega arith)
      (omega arith),
  (
    other 0xfe0d (ech_body d 0x0001 208) host (omega arith) (omega arith)
        (omega (arith, length-ech d draws 0x0001 208)),
    (
      other 0x000b ec_point_formats host (omega arith) (omega arith) (omega arith),
      (
        other 0x0017 [] host (omega arith) (omega arith) (omega arith),
        (
          other 0x000a (counted16 (words (d.g_groups ∷ chromium_groups))) host (omega arith)
              (omega arith) (omega arith),
          (
            other 0x002d psk_modes host (omega arith) (omega arith) (omega arith),
            (
              other 0x0023 [] host (omega arith) (omega arith) (omega arith),
              (
                other 0xff01 (0x00 ∷ []) host (omega arith) (omega arith) (omega arith),
                (
                  other 0x0010 alpn host (omega arith) (omega arith) (omega arith),
                  (
                    other 0x0005 status_request host (omega arith) (omega arith) (omega arith),
                    (
                      other 0x0012 [] host (omega arith) (omega arith) (omega arith),
                      (
                        inr refl,
                        (
                          other 0x44cd alps host (omega arith) (omega arith) (omega arith),
                          (
                            other 0x000d sigalgs host (omega arith) (omega arith) (omega arith),
                            (
                              other 0x0033
                                  (counted16 (
                                    grease_share d.g_key_share
                                    ++ (hybrid_share d ++ x25519_share d)))
                                  host (omega arith) (omega arith) (chromium_share d draws),
                              (
                                other 0x001b cert_compress host (omega arith) (omega arith)
                                    (omega arith),
                                tt,
                              ),
                            ),
                          ),
                        ),
                      ),
                    ),
                  ),
                ),
              ),
            ),
          ),
        ),
      ),
    ),
  ),
)

pub chromium_middle-Has : (d : Draws) (host : Text) → Has (sni_ext host) (chromium_middle d host)
unfolding chromium_middle
chromium_middle-Has d host = (11, omega arith, refl)

pub chromium_middle_count : (d : Draws) (host : Text) → length (chromium_middle d host) ≡ 16
unfolding chromium_middle
chromium_middle_count d host = refl

pub okhttp_after_count : (d : Draws) → length (okhttp_after d) ≡ 14
unfolding okhttp_after
okhttp_after_count d = refl

pub firefox_after_count : (d : Draws) → length (firefox_after d) ≡ 16
unfolding firefox_after
firefox_after_count d = refl

length-zeros : (n : ℕ) → length (zeros n) ≡ n
length-zeros zero = refl
length-zeros (suc n) = omega (arith, length-zeros n)

pub padding_bound : (payload : ℕ) → length (okhttp_padding payload) ≤ 512
padding_bound payload =
    if_keeps (λ t. length t ≤ 512) (ltb (payload + 4) 512)
      (λ less.
        omega
          (arith, length-ext 0x0015 (zeros (512 - payload - 4)), length-zeros (512 - payload - 4)))
      (λ more. omega arith)
