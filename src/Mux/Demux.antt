-- ===== src/Mux/Demux.antt =====
-- proxy/udp_mux.rs: the pump that cuts the stream of a tunnel into frames, and the table of flows.
use mirage_android.Prelude.{
  ℕ, zero, suc, ◌+◌, ◌*◌, ◌%◌, ◌^◌, Bool, true, false, Option, none, some, List, [], ◌∷◌, ◌++◌,
  if◌then◌else◌, Text, length, drop, ltb, leb, ◌==◌, number_key,
}
use mirage_android.Data.Maps.{Map, get, insert, remove}
use mirage_android.Net.Address.{IpAddr}
use mirage_android.Udp.Packets.{build_reply_ip}
use mirage_android.Mux.Frames.{Read, parse_mux_frame}

-- What the frames at the front of a buffer hold, and what is left.
abbrev pub drained : Read → List Read × Text → List Read × Text
drained r (out, rest) = (r ∷ out, rest)

-- The `while let Some(..) = parse_mux_frame(&acc)` loop.
unfoldable pub drain_loop : ℕ → Text → List Read × Text
drain_loop zero acc = ([], acc)
drain_loop (suc fuel) acc = elim (parse_mux_frame acc) [
  | none ↦ ([], acc)
  | some r ↦ drained r (drain_loop fuel (drop r.consumed acc))
]

-- Each frame takes two bytes at least.
unfoldable pub drain : Text → List Read × Text
unfolding drain_loop
drain acc = drain_loop (length acc) acc

abbrev pub acc_limit : ℕ
acc_limit = 65536 * 2

abbrev pub pumped : List Read → List Read × Bool → List Read × Bool
pumped out (more, alive) = (out ++ more, alive)

-- The demux pump over the chunks that arrive: what it reads, and whether it is still running.
unfoldable pub demux : Text → List Text → List Read × Bool
demux acc [] = ([], true)
demux acc (chunk ∷ chunks) =
    let (out, rest) = drain (acc ++ chunk) in
    let more = pumped out (demux rest chunks) in
    if ltb acc_limit (length rest) then (out, false) else more

pub record FlowKey : Type 0 where
  pub src : IpAddr
  pub src_port : ℕ
  pub dst : IpAddr
  pub dst_port : ℕ

pub record FlowEntry : Type 0 where
  pub key : FlowKey
  pub got_downlink : Bool
  pub down_counter : Option ℕ

pub record MuxTunnel : Type 0 where
  pub flows : Map ℕ FlowEntry
  pub next_sid : ℕ

abbrev pub max_sids_per_tunnel : ℕ
max_sids_per_tunnel = 512

-- `fetch_add` on a word of 32 bits; zero is no id.
unfoldable pub alloc_sid : MuxTunnel → MuxTunnel × ℕ
alloc_sid t =
    let next = λ (n : ℕ). (n + 1) % 2 ^ 32 in
    if t.next_sid == 0
    then if next t.next_sid == 0
      then (record t { next_sid = 2 }, 1)
      else (record t { next_sid = next (next t.next_sid) }, next t.next_sid)
    else (record t { next_sid = next t.next_sid }, t.next_sid)

unfoldable pub try_register : MuxTunnel → ℕ → FlowKey → Option ℕ → Option MuxTunnel
try_register t sid key down_counter =
    if leb max_sids_per_tunnel (length t.flows)
    then none
    else some (record t {
      flows =
          insert t.flows sid
            (record { key = key; got_downlink = false; down_counter = down_counter });
    })

unfoldable pub unregister : MuxTunnel → ℕ → MuxTunnel
unregister t sid = record t { flows = remove t.flows sid }

-- The packet for the TUN device, if there is one.
abbrev pub packets : Option Text → List Text
packets none = []
packets (some p) = p ∷ []

abbrev pub counted : Option ℕ → ℕ → Option ℕ
counted none n = none
counted (some c) n = some ((c + n) % 2 ^ 64)

abbrev pub to_flow : MuxTunnel → Read → Option FlowEntry → MuxTunnel × List Text
to_flow t r none = (t, [])
to_flow t r (some e) = (
  record t {
    flows = insert t.flows r.sid (record e {
      got_downlink = true;
      down_counter = counted e.down_counter (length r.payload);
    });
  },
  packets (build_reply_ip e.key.dst e.key.dst_port e.key.src e.key.src_port r.payload),
)

-- A frame goes to the flow of its id; an empty one and one without a flow are dropped.
unfoldable pub deliver : MuxTunnel → Read → MuxTunnel × List Text
deliver t r = if length r.payload == 0 then (t, []) else to_flow t r (get t.flows r.sid)
