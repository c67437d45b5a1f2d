-- ===== src/NodeUri/Parse.antt =====
-- node_uri.rs: percent decoding, and the parser of addresses. No letter
-- beyond ASCII is lowered to one of the words that are compared.
use mirage_android.Prelude.{
  ℕ, ◌+◌, ◌-◌, ◌*◌, ◌^◌, Bool, true, false, Option, none, some, List, [], ◌∷◌, if◌then◌else◌, Text,
  text_eq, length, ltb, leb, ◌==◌, ◌&&◌, ◌||◌,
}
use mirage_android.Data.Texts.{bytes, trim, trim_end_matches, eq_ignore_ascii_case}
use mirage_android.Data.Numerals.{split, split_once, rsplit_once, strip_prefix, parse_unsigned}
use mirage_android.Sniffer.Tls.{is_utf8}

pub data ParseError : Type 0 where
  short_escape bad_escape not_utf8 wrong_scheme no_at bad_ipv6 no_port bad_port zero_port
        empty_password empty_host no_sni :
      ParseError

pub data Parsed {ℓ} (A : Type ℓ) : Type ℓ where
  ok : A → Parsed A
  err : ParseError → Parsed A

infixl 5 ◌>>=◌ ◌>>◌
abbrev pub ◌>>=◌ {ℓ κ} : {A : Type ℓ} {B : Type κ} → Parsed A → (A → Parsed B) → Parsed B
ok a >>= f = f a
err e >>= f = err e

abbrev pub ◌>>◌ {ℓ} : {B : Type ℓ} → Parsed (Unit {0}) → Parsed B → Parsed B
m >> k = m >>= λ _. k

abbrev pub ok_or {ℓ} : {A : Type ℓ} → ParseError → Option A → Parsed A
ok_or e none = err e
ok_or e (some a) = ok a

abbrev pub refuse : Bool → ParseError → Parsed (Unit {0})
refuse true e = err e
refuse false e = ok tt

unfoldable pub hex_value : ℕ → Option ℕ
hex_value c =
    if leb b'0' c && leb c b'9'
    then some (c - 48)
    else if leb b'a' c && leb c b'f'
    then some (c - 87)
    else if leb b'A' c && leb c b'F'
    then some (c - 55)
    else none

abbrev pub two_digits : Option ℕ → Option ℕ → Option ℕ
two_digits (some a) (some b) = some (a * 16 + b)
two_digits _ _ = none

-- `u8::from_str_radix(hex, 16)` of two bytes, which takes a plus sign before a digit. Two bytes that
-- are no text fail as others do.
unfoldable pub hex_byte : ℕ → ℕ → Option ℕ
unfolding hex_value
hex_byte a b = if a == b'+' then hex_value b else two_digits (hex_value a) (hex_value b)

abbrev pub cons_ok : ℕ → Parsed Text → Parsed Text
cons_ok v (ok t) = ok (v ∷ t)
cons_ok v (err e) = err e

abbrev pub cons_hex : Option ℕ → Parsed Text → Parsed Text
cons_hex (some v) rest = cons_ok v rest
cons_hex none rest = err bad_escape

-- The bytes behind the escapes. The first error is reported.
unfoldable pub decode_loop : Text → Parsed Text
unfolding hex_byte
decode_loop [] = ok []
decode_loop (c ∷ []) = if c == b'%' then err short_escape else ok (c ∷ [])
decode_loop (c ∷ x ∷ []) = if c == b'%' then err short_escape else cons_ok c (decode_loop (x ∷ []))
decode_loop (c ∷ x ∷ y ∷ rest) =
    let escaped = cons_hex (hex_byte x y) (decode_loop rest) in
    let plain = cons_ok c (decode_loop (x ∷ y ∷ rest)) in if c == b'%' then escaped else plain

abbrev pub checked_utf8 : Text → Parsed Text
checked_utf8 t = if is_utf8 t then ok t else err not_utf8

unfoldable pub percent_decode : Text → Parsed Text
unfolding decode_loop
percent_decode s = decode_loop s >>= checked_utf8

pub record NodeUri : Type 0 where
  pub password : Text
  pub host : Text
  pub port : ℕ
  pub sni : Text
  pub pool_size : Option ℕ
  pub udp_mux : Option Bool

-- `split_once("]:")`.
unfoldable pub split_bracket : Text → Option (Text × Text)
split_bracket [] = none
split_bracket (x ∷ []) = none
split_bracket (x ∷ y ∷ rest) =
    let later = split_bracket (y ∷ rest) in
    if x == b']' && y == b':'
    then some ([], rest)
    else elim later [ none ↦ none | some (a, b) ↦ some (x ∷ a, b) ]

abbrev pub without_query : Text → Option (Text × Text) → Text × Text
without_query s (some parts) = parts
without_query s none = (s, [])

abbrev pub host_and_port : Text → Option Text → Parsed (Text × Text)
host_and_port s (some rest6) = ok_or bad_ipv6 (split_bracket rest6)
host_and_port s none = ok_or no_port (rsplit_once b':' s)

-- What the query has given so far.
pub record Query : Type 0 where
  pub sni : Text
  pub pool_size : Option ℕ
  pub udp_mux : Option Bool

abbrev pub pool_of : Query → Option ℕ → Query
pool_of q none = q
pool_of q (some n) = if ltb 0 n then record q { pool_size = some n } else q

abbrev pub is_word : Text → Text → Bool
is_word v w = eq_ignore_ascii_case v w

unfoldable pub mux_of : Query → Text → Query
mux_of q v =
    if is_word v (bytes "1") || is_word v (bytes "true") || is_word v (bytes "yes")
    then record q { udp_mux = some true }
    else if is_word v (bytes "0") || is_word v (bytes "false") || is_word v (bytes "no")
    then record q { udp_mux = some false }
    else q

-- The greatest usize is that of the target.
unfoldable pub take_pair : ℕ → Query → Option (Text × Text) → Parsed Query
unfolding mux_of
take_pair usize_max q none = ok q
take_pair usize_max q (some (k, v)) =
    if text_eq k (bytes "sni")
    then (percent_decode v >>= λ s. ok (record q { sni = s }))
    else if text_eq k (bytes "pool_size") || text_eq k (bytes "pool")
    then ok (pool_of q (parse_unsigned usize_max v))
    else if text_eq k (bytes "udp_mux") || text_eq k (bytes "mux")
    then ok (mux_of q v)
    else ok q

-- An empty pair has no `=`, so it changes nothing.
unfoldable pub take_pairs : ℕ → Query → List Text → Parsed Query
unfolding take_pair
take_pairs usize_max q [] = ok q
take_pairs usize_max q (pair ∷ pairs) = do
  q' ← take_pair usize_max q (split_once b'=' pair)
  take_pairs usize_max q' pairs

unfoldable pub parse : ℕ → Text → Parsed NodeUri
unfolding take_pairs
parse usize_max uri = do
  rest ← ok_or wrong_scheme (strip_prefix (bytes "mirage://") (trim uri))
  (pwd_enc, hostport_query) ← ok_or no_at (rsplit_once b'@' rest)
  let parts = without_query hostport_query (split_once b'?' hostport_query)
  (host, port_str) ← host_and_port parts.0 (strip_prefix (b'[' ∷ []) parts.0)
  port ← ok_or bad_port (parse_unsigned (2 ^ 16 - 1) (trim_end_matches b'/' port_str))
  refuse (port == 0) zero_port
  query ←
      take_pairs usize_max (record { sni = []; pool_size = none; udp_mux = none })
        (split b'&' parts.1)
  password ← percent_decode pwd_enc
  refuse (length password == 0) empty_password
  refuse (length host == 0) empty_host
  refuse (length query.sni == 0) no_sni
  ok (record {
    password = password;
    host = host;
    port = port;
    sni = query.sni;
    pool_size = query.pool_size;
    udp_mux = query.udp_mux;
  })
