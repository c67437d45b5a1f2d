-- ===== src/Mux/Frames.antt =====
-- proxy/udp_mux.rs: frames with the id of their flow, built and read.
use mirage_android.Prelude.{
  ℕ, ◌+◌, ◌*◌, ◌^◌, Option, none, some, [], ◌∷◌, ◌++◌, if◌then◌else◌, Text, length, take, drop, ltb,
  ◌==◌,
}
use mirage_android.Dns.Wire.{be16, be32}
use mirage_android.Udp.Frames.{be128, framed}

-- The id, the address with its type, the port, the payload.
unfoldable pub wrap_frame : ℕ → Text → ℕ → Text → Option Text
wrap_frame sid addr port payload = framed (be32 sid ++ (addr ++ (be16 port ++ payload)))

-- A target as it stands in a frame.
pub data Target : Type 0 where
  domain : Text → Target
  ipv4 : ℕ → Target
  ipv6 : ℕ → Target

unfoldable pub frame_mux_domain : ℕ → Text → ℕ → Text → Option Text
unfolding wrap_frame
frame_mux_domain sid d port payload =
    if ltb 255 (length d) then none else wrap_frame sid (0x03 ∷ length d ∷ d) port payload

unfoldable pub frame_mux_ipv4 : ℕ → ℕ → ℕ → Text → Option Text
unfolding wrap_frame
frame_mux_ipv4 sid u port payload = wrap_frame sid (0x01 ∷ be32 u) port payload

unfoldable pub frame_mux_ipv6 : ℕ → ℕ → ℕ → Text → Option Text
unfolding wrap_frame
frame_mux_ipv6 sid u port payload = wrap_frame sid (0x04 ∷ be128 u) port payload

unfoldable pub frame_mux : ℕ → Target → ℕ → Text → Option Text
unfolding frame_mux_domain frame_mux_ipv4 frame_mux_ipv6
frame_mux sid (domain d) port payload = frame_mux_domain sid d port payload
frame_mux sid (ipv4 u) port payload = frame_mux_ipv4 sid u port payload
frame_mux sid (ipv6 u) port payload = frame_mux_ipv6 sid u port payload

-- A frame that was read: the id, the payload, how many bytes it takes.
pub record Read : Type 0 where
  pub sid : ℕ
  pub payload : Text
  pub consumed : ℕ

abbrev pub read : ℕ → Text → ℕ → Read
read sid payload consumed = record { sid = sid; payload = payload; consumed = consumed }

-- The payload behind a head of so many bytes; what is too short has none.
abbrev pub payload_at : ℕ → Text → Text
payload_at head inner = if ltb (length inner) head then [] else drop head inner

-- The payload behind the address type; the length of a domain stands before it.
abbrev pub domain_payload : Text → Text
domain_payload [] = []
domain_payload (dl ∷ rest) = payload_at (dl + 2) rest

unfoldable pub inner_payload : Text → Text
inner_payload [] = []
inner_payload (kind ∷ rest) =
    if kind == 1
    then payload_at 6 rest
    else if kind == 4
    then payload_at 18 rest
    else if kind == 3
    then domain_payload rest
    else []

unfoldable pub parse_body : ℕ → Text → Read
unfolding inner_payload
parse_body total (a ∷ b ∷ c ∷ d ∷ inner) =
    read (a * 2 ^ 24 + b * 2 ^ 16 + c * 2 ^ 8 + d) (inner_payload inner) total
parse_body total _ = read 0 [] total

unfoldable pub parse_mux_frame : Text → Option Read
unfolding parse_body
parse_mux_frame (a ∷ b ∷ rest) =
    let flen = a * 256 + b in
    if ltb (length rest) flen then none else some (parse_body (2 + flen) (take flen rest))
parse_mux_frame _ = none
