-- ===== src/Sniffer/Tls.antt =====
-- tun/sniffer.rs: the server name of a TLS ClientHello, and the search for one in a QUIC packet.
use mirage_android.Prelude.{
  ℕ, zero, suc, ◌+◌, ◌-◌, ◌*◌, Bool, Option, none, some, [], ◌∷◌, if◌then◌else◌, Text, length, take,
  drop, ltb, leb, ◌==◌, ◌&&◌, text_eq,
}
use mirage_android.Data.Texts.{clean_domain}
use mirage_android.Data.Numerals.{◌>>=◌}
use mirage_android.Data.Lossy.{from_utf8_lossy}

-- `str::from_utf8` accepts what the lossy conversion leaves as it is.
unfoldable pub is_utf8 : Text → Bool
is_utf8 s = text_eq (from_utf8_lossy s) s

-- Positions are what is left of the buffer behind them. Behind `n` bytes, or behind the end.
abbrev pub skip : ℕ → Text → Option Text
skip n rest = if ltb (length rest) n then none else some (drop n rest)

-- Behind a field with a length of one byte, and of two.
abbrev pub skip_counted8 : Text → Option Text
skip_counted8 [] = none
skip_counted8 (n ∷ rest) = some (drop n rest)

abbrev pub skip_counted16 : Text → Option Text
skip_counted16 (a ∷ b ∷ rest) = some (drop (a * 256 + b) rest)
skip_counted16 _ = none

-- The extensions, as many of the bytes that are said to be there as there are.
abbrev pub counted_part : Text → Option Text
counted_part (a ∷ b ∷ rest) = some (take (a * 256 + b) rest)
counted_part _ = none

-- The `while sni_cur + 3 <= ext_data.len()` loop.
unfoldable pub name_loop : ℕ → Text → Option Text
name_loop (suc fuel) (kind ∷ a ∷ b ∷ rest) =
    let len : ℕ = a * 256 + b in
    let more = name_loop fuel (drop len rest) in
    if kind == 0x00 && leb len (length rest) && is_utf8 (take len rest)
    then some (clean_domain (take len rest))
    else more
name_loop _ _ = none

abbrev pub name_of : Text → Option Text
name_of (a ∷ b ∷ entries) = name_loop (length entries) entries
name_of _ = none

abbrev pub or_else : Option Text → Option Text → Option Text
or_else (some h) later = some h
or_else none later = later

-- The `while cur + 4 <= ext_end` loop.
unfoldable pub ext_loop : ℕ → Text → Option Text
unfolding name_loop
ext_loop (suc fuel) (t₁ ∷ t₀ ∷ a ∷ b ∷ rest) =
    let len : ℕ = a * 256 + b in
    let more = ext_loop fuel (drop len rest) in
    if ltb (length rest) len
    then none
    else if t₁ * 256 + t₀ == 0x0000
    then or_else (name_of (take len rest)) more
    else more
ext_loop _ _ = none

abbrev pub hello_exts : Text → Option Text
hello_exts rest = do
  sid ← skip 34 rest
  ciphers ← skip_counted8 sid
  methods ← skip_counted16 ciphers
  exts ← skip_counted8 methods
  counted_part exts

unfoldable pub parse_client_hello_payload : Text → Option Text
unfolding ext_loop
parse_client_hello_payload (kind ∷ a ∷ b ∷ c ∷ rest) =
    if kind == 0x01 then (hello_exts rest >>= λ exts. ext_loop (length exts) exts) else none
parse_client_hello_payload _ = none

-- As much of the record as there is.
unfoldable pub parse_tls_sni : Text → Option Text
unfolding parse_client_hello_payload
parse_tls_sni (kind ∷ v₁ ∷ v₀ ∷ a ∷ b ∷ rest) =
    if kind == 0x16 then parse_client_hello_payload (take (a * 256 + b) rest) else none
parse_tls_sni _ = none

-- The loop of `parse_quic_sni` over the places below `limit - 40`.
unfoldable pub quic_loop : ℕ → Text → Option Text
quic_loop zero buf = none
quic_loop (suc n) [] = none
quic_loop (suc n) (x ∷ []) = none
quic_loop (suc n) (x ∷ y ∷ rest) =
    let later = quic_loop n (y ∷ rest) in
    if x == 0x01 && y == 0x00
    then or_else (parse_client_hello_payload (x ∷ y ∷ rest)) later
    else later

unfoldable pub parse_quic_sni : Text → Option Text
unfolding quic_loop
parse_quic_sni buf = quic_loop ((if ltb (length buf) 1200 then length buf else 1200) - 40) buf
