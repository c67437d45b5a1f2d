-- ===== src/Tests/Muxes.antt =====
-- Frames and flows of a shared tunnel at concrete inputs.
use mirage_android.Prelude.{◌^◌, ◌<◌, ◌≡◌, refl, true, none, some, List, [], ◌∷◌, arith, map, Text}
use mirage_android.Data.Texts.{bytes}
use mirage_android.Net.Address.{v4}
use mirage_android.Mux.Frames.{
  domain, ipv4, read, frame_mux, frame_mux_domain, frame_mux_ipv4, wrap_frame,
}
use mirage_android.Mux.Demux.{demux, drain, FlowKey, alloc_sid}
use mirage_android.Mux.Chunks.{joined, demux-chunks}
use mirage_android.Mux.Delivery.{Datagram, frames, read_part, sent_part, demux-frames}
use mirage_android.Mux.Flows.{Op, start, stop, arrive, run, fresh_tunnel, IsTunnel, run-IsTunnel}

abbrev sent : List Datagram
sent =
    record { sid = 5; target = domain (bytes "a"); port = 53; payload = 1 ∷ 2 ∷ [] }
    ∷ record { sid = 6; target = ipv4 7; port = 80; payload = 3 ∷ [] }
    ∷ []

abbrev first_frame : Text
first_frame = 0 ∷ 11 ∷ 0 ∷ 0 ∷ 0 ∷ 5 ∷ 3 ∷ 1 ∷ 97 ∷ 0 ∷ 53 ∷ 1 ∷ 2 ∷ []

abbrev second_frame : Text
second_frame = 0 ∷ 12 ∷ 0 ∷ 0 ∷ 0 ∷ 6 ∷ 1 ∷ 0 ∷ 0 ∷ 0 ∷ 7 ∷ 0 ∷ 80 ∷ 3 ∷ []

-- The first chunk ends in the first frame.
abbrev arrived : List Text
arrived =
    (0 ∷ 11 ∷ 0 ∷ [])
    ∷ (0 ∷ 0 ∷ 5 ∷ 3 ∷ 1 ∷ 97 ∷ 0 ∷ 53 ∷ 1 ∷ 2 ∷ 0 ∷ 12 ∷ 0 ∷ 0 ∷ 0 ∷ 6 ∷ 1 ∷ 0 ∷ 0 ∷ 0 ∷ 7 ∷ 0 ∷ 80
        ∷ 3 ∷ [])
    ∷ []

sent-frames : frames sent ≡ some (first_frame ∷ second_frame ∷ [])
unfolding frames frame_mux frame_mux_domain frame_mux_ipv4 wrap_frame
sent-frames = refl

demux-frames_example :
    (map read_part (demux [] arrived).0 ≡ map sent_part sent) × ((demux [] arrived).1 ≡ true)
demux-frames_example =
    demux-frames sent (first_frame ∷ second_frame ∷ []) arrived (omega arith, (omega arith, tt))
      sent-frames (ground arith) refl

demux-chunks_example : demux [] arrived ≡ ((drain (joined arrived)).0, true)
demux-chunks_example = demux-chunks arrived (ground arith)

abbrev key : FlowKey
key = record { src = v4 1; src_port = 2; dst = v4 3; dst_port = 4 }

abbrev steps : List Op
steps = start key none ∷ arrive (read 1 (9 ∷ []) 12) ∷ stop 1 ∷ []

run-IsTunnel_example :
    IsTunnel (run fresh_tunnel steps)
    × (0 < (alloc_sid (run fresh_tunnel steps)).1)
    × ((alloc_sid (run fresh_tunnel steps)).1 < 2 ^ 32)
run-IsTunnel_example = run-IsTunnel steps
