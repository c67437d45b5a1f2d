-- ===== src/Udp/RoundTrip.antt =====
-- tun/udp.rs: a frame that was built is read back from the front of a buffer.
use mirage_android.Prelude.{
  ℕ, ◌+◌, ◌-◌, ◌*◌, ◌/◌, ◌%◌, ◌^◌, ◌≤◌, ◌<◌, ◌≡◌, refl, sym, ap, subst, ◌∙◌, Bool, true, false,
  Option, none, some, ◌∷◌, ◌++◌, arith, if◌then◌else◌, Text, length, take, ltb, ltb-ge,
  length-append, take-append, drop-append, length-take,
}
use mirage_android.Net.Address.{IpAddr, v4, v6}
use mirage_android.Dns.Wire.{be16, be32}
use mirage_android.Udp.Frames.{
  be128, domain_length, domain_head, build_frame, behind, parse_frame, parse_udp_frame_payload,
}

behind-append :
    (total head : ℕ) (front payload : Text)
    → length front ≡ head
    → behind total head (front ++ payload) ≡ some (payload, total)
behind-append total head front payload e =
    let enough : ltb (length (front ++ payload)) head ≡ false =
      ltb-ge (length (front ++ payload)) head (omega (arith, length-append front payload)) in
    rw (enough, sym e, drop-append front payload) refl

-- A body that is read is read back from its frame.
parse-body :
    (body rest payload : Text)
    → length body < 2 ^ 16
    → parse_frame (2 + length body) body ≡ some (payload, 2 + length body)
    → parse_udp_frame_payload (be16 (length body) ++ body ++ rest) ≡ some (payload, 2 + length body)
unfolding parse_udp_frame_payload
parse-body body rest payload short read =
    let size : length body / 256 % 256 * 256 + length body % 256 ≡ length body = omega arith in
    let enough : ltb (length (body ++ rest)) (length body) ≡ false =
      ltb-ge (length (body ++ rest)) (length body) (omega (arith, length-append body rest)) in
    rw (size, enough, take-append body rest) read

parse-framed :
    (body rest frame payload : Text) (long : Bool)
    → ltb (2 ^ 16 - 1) (length body) ≡ long
    → parse_frame (2 + length body) body ≡ some (payload, 2 + length body)
    → (if long then none else some (be16 (length body) ++ body)) ≡ some frame
    → parse_udp_frame_payload (frame ++ rest) ≡ some (payload, length frame)
parse-framed body rest frame payload true size read e = cc
parse-framed body rest frame payload false size read e =
    let same : be16 (length body) ++ body ≡ frame = ground arith in
    subst (λ (f : Text). parse_udp_frame_payload (f ++ rest) ≡ some (payload, length f)) same
      (parse-body body rest payload (ground arith) read
        ∙ ap (λ (n : ℕ). some (payload, n)) (omega arith))

domain_length-le : (d : Text) → domain_length d ≤ length d
domain_length-le d = ground arith

length-domain_head : (d : Text) (port : ℕ) → length (domain_head d port) ≡ domain_length d + 2
length-domain_head d port = omega (
  arith,
  length-append (take (domain_length d) d) (be16 port),
  length-take (domain_length d) d (domain_length-le d),
)

-- A frame that is built, for a domain of any length or for an address, is read from the front of
-- any buffer: the payload comes back, and just the frame is taken.
pub parse_udp_frame_payload-build_frame :
    (domain : Option Text) (ip : Option IpAddr) (port : ℕ) (payload frame rest : Text)
    → build_frame domain ip port payload ≡ some frame
    → parse_udp_frame_payload (frame ++ rest) ≡ some (payload, length frame)
unfolding build_frame parse_frame
parse_udp_frame_payload-build_frame (some d) ip port payload frame rest e =
    let body = 0x03 ∷ domain_length d ∷ (domain_head d port ++ payload) in
    parse-framed body rest frame payload _ refl
      (behind-append (2 + length body) (domain_length d + 2) (domain_head d port) payload
        (length-domain_head d port))
      e
parse_udp_frame_payload-build_frame none none port payload frame rest e = cc
parse_udp_frame_payload-build_frame none (some (v4 u)) port payload frame rest e =
    let body = 0x01 ∷ (be32 u ++ be16 port ++ payload) in
    parse-framed body rest frame payload _ refl
      (behind-append (2 + length body) 6 (be32 u ++ be16 port) payload refl) e
parse_udp_frame_payload-build_frame none (some (v6 u)) port payload frame rest e =
    let body = 0x04 ∷ (be128 u ++ be16 port ++ payload) in
    parse-framed body rest frame payload _ refl
      (behind-append (2 + length body) 18 (be128 u ++ be16 port) payload refl) e
