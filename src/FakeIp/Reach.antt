-- ===== src/FakeIp/Reach.antt =====
-- The mapper under any sequence of its operations, with lookups of several threads interleaved.
use mirage_android.Prelude.{
  ◌+◌, ◌≤◌, ◌≡◌, refl, Bool, true, false, Option, none, arith, Text, inl, inr, Option-cases, length,
  not, ◌&&◌, if_keeps, number_key, text_key,
}
use mirage_android.Data.Maps.{get}
use mirage_android.Data.Words.{not32}
use mirage_android.FakeIp.{FakeIpMapper, ok, slow_path, lookup_or_assign, clear}
use mirage_android.FakeIp.Consistency.{IsShaped, shape_of, IsConsistent}
use mirage_android.FakeIp.Allocation.{
  slow_path-IsShaped, slow_path-IsConsistent, lookup_or_assign-slow_path, size_bound,
}
use mirage_android.FakeIp.Persist.{flush, with_persist}
use mirage_android.FakeIp.Lifecycle.{with_persist-fresh}

module _ (to_lowercase : Text → Text) where
  pub data Step (m : FakeIpMapper) : FakeIpMapper → Type 0 where
    look : (domain : Text) → Step m (lookup_or_assign to_lowercase m domain).0
    -- The slow path of a lookup whose fast path missed in an earlier state.
    look_late : (domain : Text) → Step m (slow_path m domain).0
    flushes : (written renamed : Bool) → Step m (flush m written renamed).0
    clears : Step m (clear m)

  pub data Reach (m : FakeIpMapper) : FakeIpMapper → Type 0 where
    here : Reach m m
    next : {n o : FakeIpMapper} → Reach m n → Step n o → Reach m o

abbrev pub IsSound : FakeIpMapper → Type 0
IsSound m = IsShaped m × IsConsistent m

slow_path-IsSound : (m : FakeIpMapper) (d : Text) → IsSound m → IsSound (slow_path m d).0
slow_path-IsSound m d (s, c) = (slow_path-IsShaped m d s, slow_path-IsConsistent m d s c)

dirty-IsSound : (m : FakeIpMapper) (b : Bool) → IsSound m → IsSound (record m { dirty = b })
dirty-IsSound m b (s, c) = (
  shape_of refl refl s,
  record {
    forward = c.forward;
    backward = c.backward;
    inside = c.inside;
    next_inside = c.next_inside;
    domains = c.domains;
    addresses = c.addresses;
    balanced = c.balanced;
  },
)

abbrev AfterFlush : FakeIpMapper × Option Text → Type 0
AfterFlush r = IsSound r.0

flush-IsSound :
    (m : FakeIpMapper) (written renamed : Bool) → IsSound m → IsSound (flush m written renamed).0
unfolding flush
flush-IsSound m written renamed h = elim (Option-cases m.persist_path) [
  | inl e ↦ rw (e, flush) h
  | inr (path, e) ↦
      rw (e, flush)
        (if_keeps AfterFlush (not m.dirty) (λ _. h)
          (λ _.
            if_keeps AfterFlush (written && renamed) (λ _. dirty-IsSound m false h)
              (λ _. dirty-IsSound m true h)))
]

clear-IsSound : (m : FakeIpMapper) → IsSound m → IsSound (clear m)
unfolding clear get
clear-IsSound m (s, c) = (
  shape_of refl refl s,
  record {
    forward = λ d a e. cc;
    backward = λ a d e. cc;
    inside = λ a d e. cc;
    next_inside = (
      omega (arith, c.next_inside, s.fits, s.host_mask, s.roomy),
      omega (arith, c.next_inside, s.fits, s.host_mask, s.roomy),
    );
    domains = tt;
    addresses = tt;
    balanced = refl;
  },
)

module _ (to_lowercase : Text → Text) where
  Step-IsSound : {m n : FakeIpMapper} → Step to_lowercase m n → IsSound m → IsSound n
  Step-IsSound {m} (look domain) h =
      rw (lookup_or_assign-slow_path to_lowercase m domain)
        (slow_path-IsSound m (to_lowercase domain) h)
  Step-IsSound {m} (look_late domain) h = slow_path-IsSound m domain h
  Step-IsSound {m} (flushes written renamed) h = flush-IsSound m written renamed h
  Step-IsSound {m} clears h = clear-IsSound m h

  Reach-IsSound : {m n : FakeIpMapper} → Reach to_lowercase m n → IsSound m → IsSound n
  Reach-IsSound here h = h
  Reach-IsSound (next r s) h = Step-IsSound s (Reach-IsSound r h)

  -- From a mapper that starts without a cache, whatever the lookups of however many threads, the
  -- flushes and the resets, the two maps are inverse to one another, hold usable addresses only,
  -- and have at most as many entries as there are such addresses.
  pub reachable_sound :
      (cidr : Text) (path : Option Text) {m n : FakeIpMapper}
      → with_persist to_lowercase cidr path none ≡ ok m
      → Reach to_lowercase m n
      → IsConsistent n × (length n.domain_to_ip + 2 ≤ not32 n.mask)
  reachable_sound cidr path start r =
      let sound = Reach-IsSound r (with_persist-fresh to_lowercase cidr path start) in
      (sound.1, (size_bound _ sound.1).1)
