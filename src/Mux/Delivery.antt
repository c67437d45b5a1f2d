-- ===== src/Mux/Delivery.antt =====
-- proxy/udp_mux.rs: the datagrams that are framed at one end are read at the other.
use mirage_android.Prelude.{
  ℕ, suc, ◌+◌, ◌-◌, ◌*◌, ◌/◌, ◌%◌, ◌^◌, ◌<◌, ◌≡◌, refl, sym, ap, subst, ◌∙◌, true, false, Option,
  none, some, List, [], ◌∷◌, ◌++◌, map, arith, Text, length, ltb, ltb-ge, length-append,
  take-append, drop-append, All, Bool-cases, inl, inr,
}
use mathlib.Core.Option.{some_inj}
use mathlib.Core.List.{append_assoc}
use mirage_android.Data.Numerals.{◌>>=◌, >>=-some}
use mirage_android.Dns.Wire.{be16, be32}
use mirage_android.Udp.Frames.{be128, framed}
use mirage_android.Mux.Frames.{
  Target, domain, ipv4, ipv6, frame_mux, Read, read, payload_at, inner_payload, parse_body,
  parse_mux_frame,
}
use mirage_android.Mux.Demux.{drain, demux}
use mirage_android.Mux.Chunks.{IsStream, joined, drain-some, demux-chunks, drain-stop}

pub record Datagram : Type 0 where
  pub sid : ℕ
  pub target : Target
  pub port : ℕ
  pub payload : Text

abbrev pub frame_of : Datagram → Option Text
frame_of d = frame_mux d.sid d.target d.port d.payload

-- The frames of datagrams, if each fits in one.
unfoldable pub frames : List Datagram → Option (List Text)
frames [] = some []
frames (d ∷ ds) = do f ← frame_of d; fs ← frames ds; some (f ∷ fs)

-- The address of a target with its type.
abbrev address : Target → Text
address (domain d) = 0x03 ∷ length d ∷ d
address (ipv4 u) = 0x01 ∷ be32 u
address (ipv6 u) = 0x04 ∷ be128 u

frame_mux-framed :
    (sid : ℕ) (t : Target) (port : ℕ) (payload frame : Text)
    → frame_mux sid t port payload ≡ some frame
    → framed (be32 sid ++ (address t ++ (be16 port ++ payload))) ≡ some frame
unfolding frame_mux
frame_mux-framed sid (domain d) port payload frame e = ground arith
frame_mux-framed sid (ipv4 u) port payload frame e = e
frame_mux-framed sid (ipv6 u) port payload frame e = e

payload_at-append :
    (head : ℕ) (front payload : Text)
    → length front ≡ head
    → payload_at head (front ++ payload) ≡ payload
payload_at-append head front payload e =
    let enough : ltb (length (front ++ payload)) head ≡ false =
      ltb-ge (length (front ++ payload)) head (omega (arith, length-append front payload)) in
    rw (enough, sym e, drop-append front payload) refl

inner_payload-address :
    (t : Target) (port : ℕ) (payload : Text)
    → inner_payload (address t ++ (be16 port ++ payload)) ≡ payload
unfolding inner_payload
inner_payload-address (domain d) port payload =
    rw (sym (append_assoc d (be16 port) payload))
      (payload_at-append (length d + 2) (d ++ be16 port) payload (length-append d (be16 port)))
inner_payload-address (ipv4 u) port payload = payload_at-append 6 (be32 u ++ be16 port) payload refl
inner_payload-address (ipv6 u) port payload =
    payload_at-append 18 (be128 u ++ be16 port) payload refl

none-some {ℓ} : {A : Type ℓ} {a : A} → ◌≡◌ {A = Option A} none (some a) → ⊥
none-some e = cc

empty_stop : parse_mux_frame [] ≡ none
unfolding parse_mux_frame
empty_stop = refl

framed-some :
    (body frame : Text)
    → framed body ≡ some frame
    → (length body < 2 ^ 16) × (be16 (length body) ++ body ≡ frame)
framed-some body frame e = elim (Bool-cases (ltb (2 ^ 16 - 1) (length body))) [
  | inl long ↦ absurd (none-some (rw long at e))
  | inr fits ↦ (ground arith, some_inj.0 (rw fits at e))
]

-- A body that fits is read back, whatever follows.
parse-framed :
    (body rest : Text)
    → length body < 2 ^ 16
    → parse_mux_frame ((be16 (length body) ++ body) ++ rest)
      ≡ some (parse_body (2 + length body) body)
unfolding parse_mux_frame
parse-framed body rest fits =
    let size : length body / 256 % 256 * 256 + length body % 256 ≡ length body = omega arith in
    let enough : ltb (length (body ++ rest)) (length body) ≡ false =
      ltb-ge (length (body ++ rest)) (length body) (omega (arith, length-append body rest)) in
    rw (size, enough, take-append body rest) refl

parse_body-sid :
    (sid total : ℕ) (inner : Text)
    → sid < 2 ^ 32
    → parse_body total (be32 sid ++ inner) ≡ read sid (inner_payload inner) total
unfolding parse_body
parse_body-sid sid total inner h =
    let value : sid / 2 ^ 24 % 256 * 2 ^ 24
          + sid / 2 ^ 16 % 256 * 2 ^ 16
          + sid / 2 ^ 8 % 256 * 2 ^ 8
          + sid % 256
        ≡ sid =
      omega arith in
    rw value refl

-- The frame of a datagram is read from the front of any buffer.
parse_mux_frame-frame_of :
    (d : Datagram) (frame rest : Text)
    → d.sid < 2 ^ 32
    → frame_of d ≡ some frame
    → parse_mux_frame (frame ++ rest) ≡ some (read d.sid d.payload (length frame))
parse_mux_frame-frame_of d frame rest h e =
    let inner : Text = address d.target ++ (be16 d.port ++ d.payload) in
    let body : Text = be32 d.sid ++ inner in
    let size : 2 + length body ≡ suc (suc (length body)) = omega arith in
    let (fits, same) =
      framed-some body frame (frame_mux-framed d.sid d.target d.port d.payload frame e) in
    subst (λ (f : Text). parse_mux_frame (f ++ rest) ≡ some (read d.sid d.payload (length f))) same
      (parse-framed body rest fits
        ∙ ap (λ (r : Read). some r)
            (parse_body-sid d.sid (2 + length body) inner h
              ∙ ap (λ (p : Text). read d.sid p (2 + length body))
                  (inner_payload-address d.target d.port d.payload)
              ∙ ap (λ (n : ℕ). read d.sid d.payload n) size))

abbrev pub sent_part : Datagram → ℕ × Text
sent_part d = (d.sid, d.payload)

abbrev pub read_part : Read → ℕ × Text
read_part r = (r.sid, r.payload)

drain-frames :
    (ds : List Datagram) (fs : List Text)
    → All (λ d. d.sid < 2 ^ 32) ds
    → frames ds ≡ some fs
    → map read_part (drain (joined fs)).0 ≡ map sent_part ds
unfolding frames
drain-frames [] fs h e =
    subst (λ gs. map read_part (drain (joined gs)).0 ≡ []) (some_inj.0 e)
      (rw (drain-stop [] empty_stop) refl)
drain-frames (d ∷ ds) fs (hd, hs) e =
    let (f, e₁, e₂) = >>=-some (frame_of d) _ e in
    let (gs, e₃, e₄) = >>=-some (frames ds) _ e₂ in
    let first = parse_mux_frame-frame_of d f (joined gs) hd e₁ in
    let r : Read = read d.sid d.payload (length f) in
    subst (λ ts. map read_part (drain (joined ts)).0 ≡ map sent_part (d ∷ ds)) (some_inj.0 e₄)
      (rw (drain-some (f ++ joined gs) r first, drop-append f (joined gs))
        (ap (λ (ps : List (ℕ × Text)). (d.sid, d.payload) ∷ ps) (drain-frames ds gs hs e₃)))

-- If datagrams with 32-bit ids are framed and the bytes of the frames arrive in chunks, cut
-- anywhere, the pump hands out their ids and payloads, all of them and in order, and goes on
-- running.
pub demux-frames :
    (ds : List Datagram) (fs chunks : List Text)
    → All (λ d. d.sid < 2 ^ 32) ds
    → frames ds ≡ some fs
    → All IsStream chunks
    → joined chunks ≡ joined fs
    → (map read_part (demux [] chunks).0 ≡ map sent_part ds) × ((demux [] chunks).1 ≡ true)
demux-frames ds fs chunks ids e bytes same =
    let whole = demux-chunks chunks bytes in
    (rw (whole, same) (drain-frames ds fs ids e), rw whole refl)
