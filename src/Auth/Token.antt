-- ===== src/Auth/Token.antt =====
-- crypto/hello_auth.rs: making a session token, and reading one back. SHA-256, HMAC and Poly1305 are
-- third-party code.
use mirage_android.Prelude.{
  ℕ, zero, suc, ◌+◌, ◌-◌, ◌*◌, ◌/◌, ◌%◌, ◌^◌, ◌≡◌, Bool, [], ◌∷◌, ◌++◌, if◌then◌else◌, Text, length,
  take, drop, leb, ◌&&◌,
}
use mirage_android.Data.Texts.{bytes}
use mirage_android.Dns.Wire.{be32}

-- The digests that a token is made of.
pub record Digests : Type 0 where
  pub sha256 : Text → Text
  pub hmac : Text → Text → Text
  pub poly1305 : Text → Text → Text

-- How long they are.
pub record IsDigests (d : Digests) : Type 0 where
  pub hmac_size : (key message : Text) → length (d.hmac key message) ≡ 32
  pub poly1305_size : (key message : Text) → length (d.poly1305 key message) ≡ 16

-- `^` on the low bits of two numbers.
abbrev pub xor_bits : ℕ → ℕ → ℕ → ℕ
xor_bits zero a b = 0
xor_bits (suc bits) a b = (a % 2 + b % 2) % 2 + 2 * xor_bits bits (a / 2) (b / 2)

abbrev pub xor_bytes : Text → Text → Text
xor_bytes (x ∷ xs) (y ∷ ys) = xor_bits 8 x y ∷ xor_bytes xs ys
xor_bytes _ _ = []

-- The eight bytes of a u64, and back.
abbrev pub be64 : ℕ → Text
be64 n = be32 (n / 2 ^ 32) ++ be32 n

abbrev pub from_be : ℕ → Text → ℕ
from_be n [] = n
from_be n (b ∷ bs) = from_be (n * 256 + b) bs

unfoldable pub ts_mask : Digests → Text → Text → Text
ts_mask d password random_prefix = take 8 (d.hmac (d.sha256 password) random_prefix)

abbrev pub token_domain : Text
token_domain = bytes "mirage-token-v2"

unfoldable pub poly1305_tag : Digests → Text → Text → Text → Text → Text
poly1305_tag d password_bytes ts_bytes random_prefix bind =
    d.poly1305 (d.sha256 (password_bytes ++ (ts_bytes ++ (random_prefix ++ token_domain))))
      (ts_bytes ++ bind)

-- The random prefix and the time are drawn and read by the caller.
unfoldable pub make_session_token : Digests → Text → Text → Text → ℕ → Text
make_session_token d password bind random_prefix ts =
    random_prefix
    ++ (xor_bytes (be64 ts) (ts_mask d password random_prefix)
        ++ poly1305_tag d password (be64 ts) random_prefix bind)

-- The time that a token hides.
unfoldable pub token_ts_bytes : Digests → Text → Text → Text
token_ts_bytes d password token =
    xor_bytes (take 8 (drop 8 token)) (ts_mask d password (take 8 token))

abbrev pub saturating_add : ℕ → ℕ → ℕ
saturating_add a b = if leb (2 ^ 64) (a + b) then 2 ^ 64 - 1 else a + b

unfoldable pub ts_within_tolerance : ℕ → ℕ → ℕ → Bool
ts_within_tolerance ts now tolerance_secs =
    leb now (saturating_add ts tolerance_secs) && leb ts (saturating_add now tolerance_secs)
