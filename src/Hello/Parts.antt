-- ===== src/Hello/Parts.antt =====
-- crypto/tls_raw.rs: extensions, and the message around them.
use mirage_android.Prelude.{
  ℕ, zero, suc, ◌+◌, ◌*◌, ◌/◌, ◌%◌, ◌^◌, ◌<◌, ◌≡◌, true, List, [], ◌∷◌, ◌++◌, Text, length,
  contains, number_key, ◌≢◌,
}
use mirage_android.Dns.Wire.{be16}

-- What a run draws: the bytes of a call that asks for so many, numbers below a bound, the values
-- of `get_grease` (two of them are drawn until they differ), and the AEAD of Firefox.
pub record Draws : Type 0 where
  pub fill : ℕ → ℕ → Text
  pub below : ℕ → ℕ → ℕ
  pub g_cipher : ℕ
  pub g_first : ℕ
  pub g_last : ℕ
  pub g_versions : ℕ
  pub g_groups : ℕ
  pub g_key_share : ℕ
  pub aead : ℕ

abbrev pub grease_values : List ℕ
grease_values =
    0x0A0A ∷ 0x1A1A ∷ 0x2A2A ∷ 0x3A3A ∷ 0x4A4A ∷ 0x5A5A ∷ 0x6A6A ∷ 0x7A7A ∷ 0x8A8A ∷ 0x9A9A ∷ 0xAAAA
    ∷ 0xBABA ∷ 0xCACA ∷ 0xDADA ∷ 0xEAEA ∷ 0xFAFA ∷ []

abbrev pub IsGrease : ℕ → Type 0
IsGrease g = contains grease_values g ≡ true

pub record IsDraws (d : Draws) : Type 0 where
  pub length-fill : (call n : ℕ) → length (d.fill call n) ≡ n
  pub below-lt : (call n : ℕ) → 0 < n → d.below call n < n
  pub first_grease : IsGrease d.g_first
  pub last_grease : IsGrease d.g_last
  pub ends_differ : d.g_first ≢ d.g_last

abbrev pub be24 : ℕ → Text
be24 n = n / 2 ^ 16 % 256 ∷ n / 2 ^ 8 % 256 ∷ n % 256 ∷ []

unfoldable pub ext : ℕ → Text → Text
ext ext_type body = be16 ext_type ++ (be16 (length body) ++ body)

unfoldable pub sni_ext : Text → Text
unfolding ext
sni_ext sni =
    let entry = 0 ∷ (be16 (length sni) ++ sni) in ext 0x0000 (be16 (length entry) ++ entry)

unfoldable pub hello_body : Text → Text → Text → Text → Text
hello_body session_id client_random cipher_suites extensions =
    0x03
    ∷ 0x03
    ∷ (client_random
        ++ (length session_id % 256
            ∷ (session_id
                ++ (be16 (length cipher_suites)
                    ++ (cipher_suites
                        ++ (0x01 ∷ 0x00 ∷ (be16 (length extensions) ++ extensions)))))))

unfoldable pub assemble : Text → Text → Text → Text → Text
unfolding hello_body
assemble session_id client_random cipher_suites extensions =
    let body = hello_body session_id client_random cipher_suites extensions in
    let hs = 0x01 ∷ (be24 (length body) ++ body) in 0x16 ∷ 0x03 ∷ 0x01 ∷ (be16 (length hs) ++ hs)

-- A length before what it counts.
abbrev pub counted16 : Text → Text
counted16 list = be16 (length list) ++ list

abbrev pub words : List ℕ → Text
words [] = []
words (w ∷ ws) = be16 w ++ words ws

abbrev pub concat : List Text → Text
concat [] = []
concat (t ∷ ts) = t ++ concat ts

-- Two coefficients in three bytes.
abbrev pub packed : ℕ → ℕ → Text
packed c0 c1 = c0 % 256 ∷ (c0 / 256 % 16 + c1 % 16 * 16) ∷ c1 / 16 % 256 ∷ []

abbrev pub mlkem_q : ℕ
mlkem_q = 3329

unfoldable pub coefficients : Draws → ℕ → ℕ → Text
coefficients r call zero = []
coefficients r call (suc n) =
    packed (r.below call mlkem_q) (r.below (call + 1) mlkem_q) ++ coefficients r (call + 2) n

unfoldable pub mlkem768_valid_encap_key : Draws → Text
unfolding coefficients
mlkem768_valid_encap_key r = coefficients r 100 384 ++ r.fill 99 32
