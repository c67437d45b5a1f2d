-- ===== src/Pool/Pauses.antt =====
-- proxy/pool.rs: what holds of the statistics, whatever happens to a pool.
use mirage_android.Prelude.{
  ℕ, ◌≤◌, ◌<◌, ◌≡◌, refl, ◌⊎◌, inl, inr, Bool, true, false, Option, none, some, List, [], ◌∷◌,
  length, drop, arith, length-append, length-drop,
}
use mathlib.Core.Bool.{false≢true}
use mirage_android.Pool.Stats.{
  AuthPauseTracker, record_auth_failure, record_non_auth_failure, record_success, purge,
  check_paused, checked_at, paused_since, is_some, is_paused, is_auth_paused, PoolStats, new_stats,
  record_latency, record_failure_typed, purge_auth_pause, check_auth_pause, with_sample, failed_as,
  auth_failures_threshold,
}

-- What happens to the statistics, each at the clock's time.
pub data Op : Type 0 where
  latency : ℕ → ℕ → Op
  failure : ℕ → Bool → Op
  purged : Op
  checked : ℕ → Op

unfoldable pub run : PoolStats → List Op → PoolStats
unfolding record_latency record_failure_typed purge_auth_pause check_auth_pause
run st [] = st
run st (latency now ms ∷ ops) = run (record_latency st now ms).0 ops
run st (failure now is_auth ∷ ops) = run (record_failure_typed st now is_auth).0 ops
run st (purged ∷ ops) = run (purge_auth_pause st).0 ops
run st (checked now ∷ ops) = run (check_auth_pause st now).0 ops

abbrev Bounded : AuthPauseTracker → Type 0
Bounded s = (is_some s.paused_at ≡ true) ⊎ (s.consecutive_auth_failures < auth_failures_threshold)

-- A tracker has a pause recorded, or it is below the threshold.
pub record IsStats (st : PoolStats) : Type 0 where
  pub samples : length st.latency_samples ≤ 10
  pub repeated : st.consecutive_auth_failures ≡ st.auth_tracker.consecutive_auth_failures
  pub bounded : Bounded st.auth_tracker

failure_at :
    (n : ℕ) (p : Option ℕ) (now : ℕ)
    → Bounded (record_auth_failure (record { consecutive_auth_failures = n; paused_at = p }) now).0
unfolding record_auth_failure
failure_at n (some t) now = ground arith
failure_at n none now = ground arith

check_at :
    (n : ℕ) (p : Option ℕ) (now : ℕ)
    → Bounded (record { consecutive_auth_failures = n; paused_at = p })
    → Bounded (check_paused (record { consecutive_auth_failures = n; paused_at = p }) now).0
unfolding check_paused
check_at n none now h = h
check_at n (some t) now h = ground arith

non_auth-Bounded : (s : AuthPauseTracker) → Bounded (record_non_auth_failure s)
unfolding record_non_auth_failure
non_auth-Bounded s = inr (omega arith)

failed_as-Bounded :
    (is_auth : Bool) (s : AuthPauseTracker) (now : ℕ) → Bounded (failed_as is_auth s now).0
failed_as-Bounded true s now = failure_at s.consecutive_auth_failures s.paused_at now
failed_as-Bounded false s now = non_auth-Bounded s

with_sample-length :
    (samples : List ℕ) (ms : ℕ) → length samples ≤ 10 → length (with_sample samples ms) ≤ 10
with_sample-length samples ms h = ground (
  arith,
  length-append samples (ms ∷ []),
  length-append (drop 1 samples) (ms ∷ []),
  length-drop 1 samples,
)

run_from : (st : PoolStats) (ops : List Op) → IsStats st → IsStats (run st ops)
unfolding run record_latency record_failure_typed purge_auth_pause check_auth_pause record_success
    purge
run_from st [] h = h
run_from st (latency now ms ∷ ops) h = run_from (record_latency st now ms).0 ops (record {
  samples = with_sample-length st.latency_samples ms h.samples;
  repeated = refl;
  bounded = inr (omega arith);
})
run_from st (failure now is_auth ∷ ops) h =
    run_from (record_failure_typed st now is_auth).0 ops (record {
      samples = h.samples;
      repeated = refl;
      bounded = failed_as-Bounded is_auth st.auth_tracker now;
    })
run_from st (purged ∷ ops) h =
    run_from (purge_auth_pause st).0 ops
      (record { samples = h.samples; repeated = refl; bounded = inr (omega arith) })
run_from st (checked now ∷ ops) h = run_from (check_auth_pause st now).0 ops (record {
  samples = h.samples;
  repeated = refl;
  bounded =
      check_at st.auth_tracker.consecutive_auth_failures st.auth_tracker.paused_at now h.bounded;
})

-- A check answers as `is_auth_paused` does, and what it leaves bounded is below the threshold.
answered_at :
    (n : ℕ) (p : Option ℕ) (now : ℕ)
    → Bounded (record { consecutive_auth_failures = n; paused_at = p })
    → ((checked_at (record { consecutive_auth_failures = n; paused_at = p }) now p).1.0
        ≡ paused_since now p)
      × ((paused_since now p ≡ true)
          ⊎ ((checked_at
                (record { consecutive_auth_failures = n; paused_at = p })
                now
                p).0.consecutive_auth_failures
              < auth_failures_threshold))
answered_at n none now (inl e) = absurd (false≢true e)
answered_at n none now (inr h) = (refl, inr h)
answered_at n (some t) now h = ground arith

-- Whatever successes, failures, purges and checks a pool's new statistics see, at whatever times,
-- they keep at most ten latencies and repeat the counter of the tracker, and a tracker has a pause
-- recorded or fewer than five failed authentications in a row; at any time, check_auth_pause
-- answers as is_auth_paused does, and unless the pool is paused then, the check leaves it with
-- fewer than five.
pub run-IsStats :
    (ops : List Op) (now : ℕ)
    → IsStats (run new_stats ops)
      × ((check_auth_pause (run new_stats ops) now).1.0 ≡ is_auth_paused (run new_stats ops) now)
      × ((is_auth_paused (run new_stats ops) now ≡ true)
          ⊎ ((check_auth_pause (run new_stats ops) now).0.consecutive_auth_failures
              < auth_failures_threshold))
unfolding check_auth_pause check_paused is_auth_paused is_paused
run-IsStats ops now =
    let st : PoolStats = run new_stats ops in
    let tracker : AuthPauseTracker = st.auth_tracker in
    let kept =
      run_from new_stats ops
        (record { samples = omega arith; repeated = refl; bounded = inr (omega arith) }) in
    let (same, below) =
      answered_at tracker.consecutive_auth_failures tracker.paused_at now kept.bounded in
    (kept, same, below)
