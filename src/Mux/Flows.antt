-- ===== src/Mux/Flows.antt =====
-- proxy/udp_mux.rs: the table of flows of a tunnel over any run of its operations.
use mirage_android.Prelude.{
  ℕ, ◌+◌, ◌^◌, ◌≤◌, ◌<◌, ◌≡◌, refl, false, Option, none, some, List, [], ◌∷◌, arith, length, leb,
  ◌==◌, number_key, Bool-cases, inl, inr,
}
use mirage_android.Data.Maps.{
  Map, get, insert, IsMap, insert-IsMap, remove-IsMap, length-remove-le, length-remove,
}
use mirage_android.Mux.Frames.{Read}
use mirage_android.Mux.Demux.{
  MuxTunnel, FlowKey, FlowEntry, alloc_sid, try_register, unregister, to_flow, deliver,
  max_sids_per_tunnel,
}

pub record IsTunnel (t : MuxTunnel) : Type 0 where
  pub one_entry : IsMap t.flows
  pub bounded : length t.flows ≤ max_sids_per_tunnel
  pub word : t.next_sid < 2 ^ 32

-- What happens to a tunnel: a new flow asks for an id and is registered, a flow ends, a frame arrives.
pub data Op : Type 0 where
  start : FlowKey → Option ℕ → Op
  stop : ℕ → Op
  arrive : Read → Op

abbrev pub if_registered : MuxTunnel → Option MuxTunnel → MuxTunnel
if_registered t none = t
if_registered t (some t') = t'

unfoldable pub step : MuxTunnel → Op → MuxTunnel
step t (start key counter) =
    let (t', sid) = alloc_sid t in if_registered t' (try_register t' sid key counter)
step t (stop sid) = unregister t sid
step t (arrive r) = (deliver t r).0

unfoldable pub run : MuxTunnel → List Op → MuxTunnel
run t [] = t
run t (op ∷ ops) = run (step t op) ops

unfoldable pub fresh_tunnel : MuxTunnel
fresh_tunnel = record { flows = []; next_sid = 1 }

alloc_sid_lem :
    (t : MuxTunnel)
    → t.next_sid < 2 ^ 32
    → (0 < (alloc_sid t).1)
      × ((alloc_sid t).1 < 2 ^ 32)
      × ((alloc_sid t).0.flows ≡ t.flows)
      × ((alloc_sid t).0.next_sid < 2 ^ 32)
unfolding alloc_sid
alloc_sid_lem t h = ground arith

length-insert-le :
    (m : Map ℕ FlowEntry) (a : ℕ) (e : FlowEntry) → length (insert m a e) ≤ length m + 1
unfolding insert
length-insert-le m a e = omega (arith, length-remove-le m a)

length-insert_present :
    (m : Map ℕ FlowEntry) (a : ℕ) (old e : FlowEntry)
    → IsMap m
    → get m a ≡ some old
    → length (insert m a e) ≡ length m
unfolding insert
length-insert_present m a old e unique at = omega (arith, length-remove m a old unique at)

register-IsTunnel :
    (t : MuxTunnel) (sid : ℕ) (key : FlowKey) (counter : Option ℕ)
    → IsTunnel t
    → IsTunnel (if_registered t (try_register t sid key counter))
unfolding try_register
register-IsTunnel t sid key counter v =
    let entry : FlowEntry = record { key = key; got_downlink = false; down_counter = counter } in
    elim (Bool-cases (leb max_sids_per_tunnel (length t.flows))) [
      | inl full ↦ rw full v
      | inr room ↦ rw room (record {
        one_entry = insert-IsMap t.flows sid entry v.one_entry;
        bounded = ground (arith, length-insert-le t.flows sid entry);
        word = v.word;
      })
    ]

to_flow-IsTunnel :
    (t : MuxTunnel) (r : Read) (found : Option FlowEntry)
    → get t.flows r.sid ≡ found
    → IsTunnel t
    → IsTunnel (to_flow t r found).0
to_flow-IsTunnel t r none e v = v
to_flow-IsTunnel t r (some old) e v = record {
  one_entry = insert-IsMap t.flows r.sid _ v.one_entry;
  bounded = omega (arith, length-insert_present t.flows r.sid old _ v.one_entry e, v.bounded);
  word = v.word;
}

deliver-IsTunnel : (t : MuxTunnel) (r : Read) → IsTunnel t → IsTunnel (deliver t r).0
unfolding deliver
deliver-IsTunnel t r v = elim (Bool-cases (length r.payload == 0)) [
  | inl empty ↦ rw empty v
  | inr payload ↦ rw payload (to_flow-IsTunnel t r (get t.flows r.sid) refl v)
]

step-IsTunnel : (t : MuxTunnel) (op : Op) → IsTunnel t → IsTunnel (step t op)
unfolding step unregister
step-IsTunnel t (start key counter) v =
    let (positive, word, kept, next_word) = alloc_sid_lem t v.word in
    let t' : MuxTunnel = (alloc_sid t).0 in
    register-IsTunnel t' (alloc_sid t).1 key counter
      (record { one_entry = rw kept v.one_entry; bounded = rw kept v.bounded; word = next_word })
step-IsTunnel t (stop sid) v = record {
  one_entry = remove-IsMap t.flows sid v.one_entry;
  bounded = omega (arith, length-remove-le t.flows sid, v.bounded);
  word = v.word;
}
step-IsTunnel t (arrive r) v = deliver-IsTunnel t r v

run_from-IsTunnel : (t : MuxTunnel) (ops : List Op) → IsTunnel t → IsTunnel (run t ops)
unfolding run
run_from-IsTunnel t [] v = v
run_from-IsTunnel t (op ∷ ops) v = run_from-IsTunnel (step t op) ops (step-IsTunnel t op v)

-- Whatever flows start and stop and whatever frames arrive, the table of a tunnel has one entry
-- for each id and at most 512 entries, and the next id is a 32-bit word other than zero.
pub run-IsTunnel :
    (ops : List Op)
    → IsTunnel (run fresh_tunnel ops)
      × (0 < (alloc_sid (run fresh_tunnel ops)).1)
      × ((alloc_sid (run fresh_tunnel ops)).1 < 2 ^ 32)
unfolding fresh_tunnel
run-IsTunnel ops =
    let v =
      run_from-IsTunnel fresh_tunnel ops
        (record { one_entry = tt; bounded = omega arith; word = omega arith }) in
    let (positive, word, kept, next_word) = alloc_sid_lem (run fresh_tunnel ops) v.word in
    (v, positive, word)
