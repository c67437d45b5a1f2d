-- ===== src/Crypto/Reader.antt =====
-- crypto/aead.rs: `CryptoReader`, which opens records and takes their padding off.
use mirage_android.Prelude.{
  ℕ, zero, suc, ◌+◌, ◌*◌, Bool, Option, none, some, [], ◌∷◌, ◌++◌, if◌then◌else◌, Text, length,
  take, drop, ltb, ◌==◌, ◌&&◌, ◌||◌, not,
}
use mirage_android.Crypto.Cipher.{
  Cipher, chacha20_poly1305, same_cipher, AeadKey, Primitives, expand_key, format_nonce, read_info,
  max_record_size, tag_size,
}
use mirage_android.Crypto.Writer.{nonce_max}

pub record CryptoReader : Type 0 where
  pub cipher : AeadKey
  pub nonce : ℕ
  pub master : Text
  pub cipher_kind : Cipher
  pub is_initiator : Bool

unfoldable pub new_reader : Primitives → Text → Bool → CryptoReader
new_reader p master is_initiator = record {
  cipher = expand_key p master (read_info is_initiator) chacha20_poly1305;
  nonce = 0;
  master = master;
  cipher_kind = chacha20_poly1305;
  is_initiator = is_initiator;
}

unfoldable pub rekey_reader : Primitives → Cipher → CryptoReader → CryptoReader
rekey_reader p cipher r =
    if same_cipher cipher r.cipher_kind || same_cipher cipher chacha20_poly1305
    then r
    else record r {
      cipher = expand_key p r.master (read_info r.is_initiator) cipher;
      cipher_kind = cipher;
      nonce = 0;
    }

pub data RecvError : Type 0 where
  end_of_stream bad_magic too_long nonce_used_up open_failed empty_text padding_only unknown_type
        alert :
      RecvError

-- What an opened record holds: `none` is the close_notify of the peer.
pub data Opened : Type 0 where
  content : Option ℕ → Opened
  malformed : RecvError → Opened

-- A byte of a buffer, read within its bounds.
abbrev pub byte_at : Text → ℕ → ℕ
byte_at [] i = 0
byte_at (b ∷ bs) zero = b
byte_at (b ∷ bs) (suc i) = byte_at bs i

-- The `while end > 0 && pt[end - 1] == 0` loop.
unfoldable pub strip_zeros : Text → ℕ → ℕ
strip_zeros pt zero = zero
strip_zeros pt (suc e) = let less = strip_zeros pt e in if byte_at pt e == 0 then less else suc e

abbrev pub by_type : ℕ → ℕ → Opened
by_type kind len =
    if kind == 0x17
    then content (some len)
    else if kind == 0x15
    then content none
    else malformed unknown_type

abbrev pub typed_content : Text → ℕ → Opened
typed_content pt zero = malformed padding_only
typed_content pt (suc e) = by_type (byte_at pt e) e

unfoldable pub process_plaintext_mobile : Text → Opened
unfolding strip_zeros
process_plaintext_mobile [] = malformed empty_text
process_plaintext_mobile (b ∷ bs) = typed_content (b ∷ bs) (strip_zeros (b ∷ bs) (length (b ∷ bs)))

-- What a call gives: the bytes and what is left of the stream, or an error.
pub data Received : Type 0 where
  got : Option Text → CryptoReader → Text → Received
  failed : RecvError → CryptoReader → Received

abbrev pub finish : Text → CryptoReader → Text → Opened → Received
finish pt r rest (content (some n)) = got (some (take n pt)) r rest
finish pt r rest (content none) = got none r rest
finish pt r rest (malformed e) = failed e r

abbrev pub opened_as : CryptoReader → Text → Option Text → Received
opened_as r rest none = failed open_failed r
opened_as r rest (some pt) = finish pt r rest (process_plaintext_mobile pt)

-- The body of a record of `len` bytes, and the stream behind it.
abbrev pub open_body : Primitives → CryptoReader → ℕ → Text → Received
open_body p r len stream =
    if r.nonce == nonce_max
    then failed nonce_used_up r
    else opened_as (record r { nonce = r.nonce + 1 }) (drop len stream)
        (p.unseal r.cipher (format_nonce r.nonce) (take len stream))

abbrev pub after_header : Primitives → CryptoReader → ℕ → Text → Received
after_header p r len stream =
    if ltb (max_record_size + 1 + tag_size) len
    then failed too_long r
    else if ltb (length stream) len
    then failed end_of_stream r
    else open_body p r len stream

-- `recv_data_to`: the content of the next record of the stream, nothing at the peer's close.
unfoldable pub recv_data_to : Primitives → CryptoReader → Text → Received
unfolding process_plaintext_mobile
recv_data_to p r (a ∷ b ∷ c ∷ d ∷ e ∷ stream) =
    if not (a == 0x17 && b == 0x03 && c == 0x03)
    then failed bad_magic r
    else after_header p r (d * 256 + e) stream
recv_data_to p r _ = failed end_of_stream r

abbrev pub close_is_error : Received → Received
close_is_error (got none r rest) = failed alert r
close_is_error (got (some t) r rest) = got (some t) r rest
close_is_error (failed e r) = failed e r

-- `recv_data` and `recv_data_borrowed`.
unfoldable pub recv_data : Primitives → CryptoReader → Text → Received
unfolding recv_data_to
recv_data p r stream = close_is_error (recv_data_to p r stream)

-- The contents of the next records, as a relay reads them one after another.
abbrev pub join : Text → Option (Text × CryptoReader × Text) → Option (Text × CryptoReader × Text)
join t none = none
join t (some (more, r, rest)) = some (t ++ more, r, rest)

unfoldable pub recv_many :
    Primitives → ℕ → CryptoReader → Text → Option (Text × CryptoReader × Text)
recv_many p zero r stream = some ([], r, stream)
recv_many p (suc n) r stream = elim (recv_data_to p r stream) [
  | got (some t) r' rest ↦ join t (recv_many p n r' rest)
  | got none r' rest ↦ none
  | failed e r' ↦ none
]
