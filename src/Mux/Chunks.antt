-- ===== src/Mux/Chunks.antt =====
-- proxy/udp_mux.rs: what is read does not depend on how the stream is cut into chunks.
use mirage_android.Prelude.{
  ℕ, zero, suc, ◌+◌, ◌-◌, ◌*◌, ◌≤◌, ◌<◌, ◌≡◌, refl, sym, ap, ◌∙◌, true, false, none, some, List, [],
  ◌∷◌, ◌++◌, arith, inl, inr, Text, length, take, drop, ltb, ltb-ge, length-append, length-drop,
  Option-cases, All,
}
use mathlib.Core.List.{append_assoc, append-nil}
use mirage_android.Mux.Frames.{Read, parse_body, parse_mux_frame}
use mirage_android.Mux.Demux.{drained, drain_loop, drain, acc_limit, pumped, demux}

take_front : (n : ℕ) (xs ys : Text) → n ≤ length xs → take n (xs ++ ys) ≡ take n xs
take_front zero xs ys h = refl
take_front (suc n) [] ys h = absurd (omega arith)
take_front (suc n) (x ∷ xs) ys h = ground (arith, take_front n xs ys)

drop_front : (n : ℕ) (xs ys : Text) → n ≤ length xs → drop n (xs ++ ys) ≡ drop n xs ++ ys
drop_front zero xs ys h = refl
drop_front (suc n) [] ys h = absurd (omega arith)
drop_front (suc n) (x ∷ xs) ys h = drop_front n xs ys (omega arith)

consumed-body : (total : ℕ) (body : Text) → (parse_body total body).consumed ≡ total
unfolding parse_body
consumed-body total [] = refl
consumed-body total (a ∷ []) = refl
consumed-body total (a ∷ b ∷ []) = refl
consumed-body total (a ∷ b ∷ c ∷ []) = refl
consumed-body total (a ∷ b ∷ c ∷ d ∷ inner) = refl

-- A frame takes two bytes at least and no more than there are.
consumed_bounds :
    (acc : Text) (r : Read)
    → parse_mux_frame acc ≡ some r
    → (2 ≤ r.consumed) × (r.consumed ≤ length acc)
unfolding parse_mux_frame
consumed_bounds [] r e = cc
consumed_bounds (a ∷ []) r e = cc
consumed_bounds (a ∷ b ∷ rest) r e =
    let total : ℕ = 2 + (a * 256 + b) in
    ground (arith, consumed-body total (take (a * 256 + b) rest))

-- More bytes behind a frame do not change it.
parse_mux_frame-append :
    (acc more : Text) (r : Read)
    → parse_mux_frame acc ≡ some r
    → parse_mux_frame (acc ++ more) ≡ some r
unfolding parse_mux_frame
parse_mux_frame-append [] more r e = cc
parse_mux_frame-append (a ∷ []) more r e = cc
parse_mux_frame-append (a ∷ b ∷ rest) more r e =
    ground (arith, length-append rest more, take_front (a * 256 + b) rest more)

drain_loop_next :
    (fuel : ℕ) (acc : Text) (r : Read)
    → parse_mux_frame acc ≡ some r
    → drain_loop (suc fuel) acc ≡ drained r (drain_loop fuel (drop r.consumed acc))
unfolding drain_loop
drain_loop_next fuel acc r e = rw (e, drain_loop) refl

drain_loop_stop :
    (fuel : ℕ) (acc : Text) → parse_mux_frame acc ≡ none → drain_loop fuel acc ≡ ([], acc)
unfolding drain_loop
drain_loop_stop zero acc e = refl
drain_loop_stop (suc fuel) acc e = rw (e, drain_loop) refl

empty_stop : (acc : Text) → length acc ≡ 0 → parse_mux_frame acc ≡ none
unfolding parse_mux_frame
empty_stop [] e = refl
empty_stop (b ∷ acc) e = absurd (omega arith)

-- More fuel than there are bytes makes no difference.
drain_loop_enough :
    (f g : ℕ) (acc : Text) → length acc ≤ f → length acc ≤ g → drain_loop f acc ≡ drain_loop g acc
drain_loop_enough zero g acc hf hg =
    let stop = empty_stop acc (omega arith) in
    drain_loop_stop zero acc stop ∙ sym (drain_loop_stop g acc stop)
drain_loop_enough (suc f) zero acc hf hg =
    let stop = empty_stop acc (omega arith) in
    drain_loop_stop (suc f) acc stop ∙ sym (drain_loop_stop zero acc stop)
drain_loop_enough (suc f) (suc g) acc hf hg = elim (Option-cases (parse_mux_frame acc)) [
  | inl stop ↦ drain_loop_stop (suc f) acc stop ∙ sym (drain_loop_stop (suc g) acc stop)
  | inr (r, e) ↦
      let rest : Text = drop r.consumed acc in
      let bounds = consumed_bounds acc r e in
      let less = length-drop r.consumed acc in
      drain_loop_next f acc r e
      ∙ ap (drained r) (drain_loop_enough f g rest (omega arith) (omega arith))
      ∙ sym (drain_loop_next g acc r e)
]

abbrev after : List Read → List Read × Text → List Read × Text
after out (more, rest) = (out ++ more, rest)

pub drain-some :
    (acc : Text) (r : Read)
    → parse_mux_frame acc ≡ some r
    → drain acc ≡ drained r (drain (drop r.consumed acc))
unfolding drain
drain-some acc r e =
    let bounds = consumed_bounds acc r e in
    let n : ℕ = length acc - 1 in
    let rest : Text = drop r.consumed acc in
    let less = length-drop r.consumed acc in
    let size : length acc ≡ suc n = omega arith in
    ap (λ (m : ℕ). drain_loop m acc) size
    ∙ drain_loop_next n acc r e
    ∙ ap (drained r) (drain_loop_enough n (length rest) rest (omega arith) (omega arith))

-- Bytes that arrive later are read behind what is left of the earlier ones.
drain_loop-append :
    (fuel : ℕ) (acc more : Text)
    → length acc ≤ fuel
    → drain (acc ++ more) ≡ after (drain_loop fuel acc).0 (drain ((drain_loop fuel acc).1 ++ more))
drain_loop-append zero acc more enough = sym (
    ap (λ (x : List Read × Text). after x.0 (drain (x.1 ++ more)))
      (drain_loop_stop zero acc (empty_stop acc (omega arith))))
drain_loop-append (suc f) acc more enough = elim (Option-cases (parse_mux_frame acc)) [
  | inl stop ↦ sym (
      ap (λ (x : List Read × Text). after x.0 (drain (x.1 ++ more)))
        (drain_loop_stop (suc f) acc stop))
  | inr (r, e) ↦
      let bounds = consumed_bounds acc r e in
      let rest : Text = drop r.consumed acc in
      let less = length-drop r.consumed acc in
      drain-some (acc ++ more) r (parse_mux_frame-append acc more r e)
      ∙ ap (λ (t : Text). drained r (drain t)) (drop_front r.consumed acc more bounds.1)
      ∙ ap (drained r) (drain_loop-append f rest more (omega arith))
      ∙ sym (
          ap (λ (x : List Read × Text). after x.0 (drain (x.1 ++ more)))
            (drain_loop_next f acc r e))
]

-- What is left is a frame that is not there in full.
drain_loop-rest :
    (fuel : ℕ) (acc : Text) → length acc ≤ fuel → parse_mux_frame (drain_loop fuel acc).1 ≡ none
drain_loop-rest zero acc enough =
    rw (drain_loop_stop zero acc (empty_stop acc (omega arith))) (empty_stop acc (omega arith))
drain_loop-rest (suc f) acc enough = elim (Option-cases (parse_mux_frame acc)) [
  | inl stop ↦ rw (drain_loop_stop (suc f) acc stop) stop
  | inr (r, e) ↦
      let bounds = consumed_bounds acc r e in
      let less = length-drop r.consumed acc in
      rw (drain_loop_next f acc r e) (drain_loop-rest f (drop r.consumed acc) (omega arith))
]

-- The bytes of a stream.
abbrev pub IsStream : Text → Type 0
IsStream s = All (λ b. b < 256) s

incomplete_bound : (acc : Text) → IsStream acc → parse_mux_frame acc ≡ none → length acc ≤ 65537
unfolding parse_mux_frame
incomplete_bound [] h e = omega arith
incomplete_bound (a ∷ []) h e = omega arith
incomplete_bound (a ∷ b ∷ rest) (ha, (hb, h)) e = ground arith

All-drop : (n : ℕ) (xs : Text) → IsStream xs → IsStream (drop n xs)
All-drop zero xs h = h
All-drop (suc n) [] h = tt
All-drop (suc n) (x ∷ xs) h = All-drop n xs h.1

All-append : (xs ys : Text) → IsStream xs → IsStream ys → IsStream (xs ++ ys)
All-append [] ys h k = k
All-append (x ∷ xs) ys h k = (h.0, All-append xs ys h.1 k)

drain_loop-IsStream : (fuel : ℕ) (acc : Text) → IsStream acc → IsStream (drain_loop fuel acc).1
unfolding drain_loop
drain_loop-IsStream zero acc h = h
drain_loop-IsStream (suc f) acc h = elim (Option-cases (parse_mux_frame acc)) [
  | inl stop ↦ rw (drain_loop_stop (suc f) acc stop) h
  | inr (r, e) ↦
      rw (drain_loop_next f acc r e)
        (drain_loop-IsStream f (drop r.consumed acc) (All-drop r.consumed acc h))
]

pub drain-stop : (acc : Text) → parse_mux_frame acc ≡ none → drain acc ≡ ([], acc)
unfolding drain
drain-stop acc stop = drain_loop_stop (length acc) acc stop

drain-rest :
    (acc : Text) → IsStream acc → IsStream (drain acc).1 × (parse_mux_frame (drain acc).1 ≡ none)
unfolding drain
drain-rest acc h =
    (drain_loop-IsStream (length acc) acc h, drain_loop-rest (length acc) acc (omega arith))

drain-append :
    (acc more : Text) → drain (acc ++ more) ≡ after (drain acc).0 (drain ((drain acc).1 ++ more))
unfolding drain
drain-append acc more = drain_loop-append (length acc) acc more (omega arith)

abbrev pub joined : List Text → Text
joined [] = []
joined (c ∷ cs) = c ++ joined cs

demux-joined :
    (acc : Text) (chunks : List Text)
    → IsStream acc
    → All IsStream chunks
    → parse_mux_frame acc ≡ none
    → demux acc chunks ≡ ((drain (acc ++ joined chunks)).0, true)
unfolding demux
demux-joined acc [] h hs stop =
    sym
      (ap (λ (x : List Read × Text). (x.0, true)) (ap drain (append-nil acc) ∙ drain-stop acc stop))
demux-joined acc (c ∷ cs) h (hc, hs) stop =
    let rest : Text = (drain (acc ++ c)).1 in
    let (bytes, stopped) = drain-rest (acc ++ c) (All-append acc c h hc) in
    let short : ltb acc_limit (length rest) ≡ false =
      ltb-ge acc_limit (length rest) (omega (arith, incomplete_bound rest bytes stopped)) in
    rw short (
      ap (pumped (drain (acc ++ c)).0) (demux-joined rest cs bytes hs stopped)
      ∙ sym (
          ap (λ (x : List Read × Text). (x.0, true))
            (ap drain (sym (append_assoc acc c (joined cs)))
              ∙ drain-append (acc ++ c) (joined cs))))

-- Whatever bytes arrive, in whatever chunks, the pump hands out the frames that one pass over all
-- of them together cuts off, and its limit on what is left over never stops it.
pub demux-chunks :
    (chunks : List Text) → All IsStream chunks → demux [] chunks ≡ ((drain (joined chunks)).0, true)
demux-chunks chunks h = demux-joined [] chunks tt h (empty_stop [] refl)
