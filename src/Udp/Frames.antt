-- ===== src/Udp/Frames.antt =====
-- tun/udp.rs: building a frame and reading the first frame of a buffer.
use mirage_android.Prelude.{
  ℕ, ◌+◌, ◌-◌, ◌*◌, ◌/◌, ◌^◌, Option, none, some, [], ◌∷◌, ◌++◌, if◌then◌else◌, Text, length, take,
  drop, ltb, ◌==◌,
}
use mirage_android.Net.Address.{IpAddr, v4, v6}
use mirage_android.Dns.Wire.{be16, be32}

-- `octets()` of an IPv6 address.
abbrev pub be128 : ℕ → Text
be128 u = be32 (u / 2 ^ 96) ++ be32 (u / 2 ^ 64) ++ be32 (u / 2 ^ 32) ++ be32 u

abbrev pub domain_length : Text → ℕ
domain_length d = if ltb (length d) 255 then length d else 255

-- The address and the port; a domain has a length byte and at most 255 bytes.
abbrev pub domain_head : Text → ℕ → Text
domain_head d port = take (domain_length d) d ++ be16 port

abbrev pub framed : Text → Option Text
framed body = if ltb (2 ^ 16 - 1) (length body) then none else some (be16 (length body) ++ body)

unfoldable pub build_frame : Option Text → Option IpAddr → ℕ → Text → Option Text
build_frame (some d) ip port payload =
    framed (0x03 ∷ domain_length d ∷ (domain_head d port ++ payload))
build_frame none none port payload = none
build_frame none (some (v4 u)) port payload = framed (0x01 ∷ (be32 u ++ be16 port ++ payload))
build_frame none (some (v6 u)) port payload = framed (0x04 ∷ (be128 u ++ be16 port ++ payload))

-- The payload behind a head of so many bytes; a frame that is too short is empty.
abbrev pub behind : ℕ → ℕ → Text → Option (Text × ℕ)
behind total head body =
    if ltb (length body) head then some ([], total) else some (drop head body, total)

abbrev behind_domain : ℕ → Text → Option (Text × ℕ)
behind_domain total [] = none
behind_domain total (dlen ∷ body) = behind total (dlen + 2) body

unfoldable pub parse_frame : ℕ → Text → Option (Text × ℕ)
parse_frame total [] = some ([], total)
parse_frame total (kind ∷ body) =
    if kind == 0x03
    then behind_domain total body
    else if kind == 0x01
    then behind total 6 body
    else if kind == 0x04
    then behind total 18 body
    else some ([], total)

-- The payload of the first frame, and how many bytes it takes.
unfoldable pub parse_udp_frame_payload : Text → Option (Text × ℕ)
unfolding parse_frame
parse_udp_frame_payload [] = none
parse_udp_frame_payload (a ∷ []) = none
parse_udp_frame_payload (a ∷ b ∷ rest) =
    let flen = a * 256 + b in
    if ltb (length rest) flen then none else parse_frame (2 + flen) (take flen rest)
