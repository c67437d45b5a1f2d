-- ===== src/Crypto/Cipher.antt =====
-- crypto/cipher.rs and the keys of crypto/aead.rs. HKDF and the AEAD algorithms are third-party code.
use mirage_android.Prelude.{
  ℕ, ◌+◌, ◌/◌, ◌^◌, ◌≡◌, Bool, true, false, Option, none, some, [], ◌∷◌, ◌++◌, if◌then◌else◌, Text,
  length, ◌==◌,
}
use mirage_android.Data.Texts.{bytes}
use mirage_android.Dns.Wire.{be32}

pub data Cipher : Type 0 where
  chacha20_poly1305 aes256_gcm : Cipher

unfoldable pub to_wire : Cipher → ℕ
to_wire chacha20_poly1305 = 0x01
to_wire aes256_gcm = 0x02

unfoldable pub from_wire : ℕ → Option Cipher
from_wire b =
    if b == 0x01 then some chacha20_poly1305 else if b == 0x02 then some aes256_gcm else none

abbrev pub same_cipher : Cipher → Cipher → Bool
same_cipher chacha20_poly1305 chacha20_poly1305 = true
same_cipher aes256_gcm aes256_gcm = true
same_cipher _ _ = false

unfoldable pub hkdf_suffix : Cipher → Text
hkdf_suffix chacha20_poly1305 = []
hkdf_suffix aes256_gcm = bytes "-aes256gcm"

abbrev pub tag_size : ℕ
tag_size = 16

abbrev pub max_record_size : ℕ
max_record_size = 16384

-- A key, with the algorithm that uses it.
pub record AeadKey : Type 0 where
  pub kind : Cipher
  pub okm : Text

-- What the hkdf and ring crates give. `unseal` is `open_in_place`.
pub record Primitives : Type 0 where
  pub extract : Text → Text → Text
  pub expand : Text → Text → Text
  pub seal : AeadKey → Text → Text → Text
  pub unseal : AeadKey → Text → Text → Option Text

-- An AEAD algorithm opens what it sealed, and the tag is all that it adds.
pub record IsAead (p : Primitives) : Type 0 where
  pub unseal-seal :
      (k : AeadKey) (nonce text : Text) → p.unseal k nonce (p.seal k nonce text) ≡ some text
  pub length-seal :
      (k : AeadKey) (nonce text : Text) → length (p.seal k nonce text) ≡ length text + tag_size

-- `derive_master`: the salt is the client's random bytes and then the server's.
unfoldable pub derive_master : Primitives → Text → Text → Text → Text
derive_master p password client_random server_random =
    p.expand (p.extract (client_random ++ server_random) password) (bytes "mirage-session-v2")

unfoldable pub derive_master_pfs : Primitives → Text → Text → Text → Text → Text
derive_master_pfs p password client_random server_random ecdh =
    p.expand (p.extract (client_random ++ server_random) (password ++ ecdh))
      (bytes "mirage-session-v2-pfs")

unfoldable pub expand_key : Primitives → Text → Text → Cipher → AeadKey
expand_key p master info cipher = record {
  kind = cipher;
  okm = p.expand master (info ++ hkdf_suffix cipher);
}

-- The nonce: four zeros and the counter.
unfoldable pub format_nonce : ℕ → Text
format_nonce n = 0 ∷ 0 ∷ 0 ∷ 0 ∷ (be32 (n / 2 ^ 32) ++ be32 n)

-- The direction of a writer's keys, and of a reader's.
unfoldable pub write_info : Bool → Text
write_info is_initiator = if is_initiator then bytes "c2s" else bytes "s2c"

unfoldable pub read_info : Bool → Text
read_info is_initiator = if is_initiator then bytes "s2c" else bytes "c2s"
