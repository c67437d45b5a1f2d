-- ===== src/Pool/Stats.antt =====
-- proxy/pool.rs: the pause after failed authentications, and the statistics of a pool.
use mirage_android.Prelude.{
  ℕ, ◌+◌, ◌-◌, ◌%◌, ◌^◌, Bool, true, false, Option, none, some, List, [], ◌∷◌, ◌++◌, if◌then◌else◌,
  length, drop, ltb, leb, ◌==◌, ◌&&◌,
}

-- Instants and durations are in milliseconds.
abbrev pub auth_pause_duration : ℕ
auth_pause_duration = 300000

abbrev pub auth_failures_threshold : ℕ
auth_failures_threshold = 5

pub record AuthPauseTracker : Type 0 where
  pub consecutive_auth_failures : ℕ
  pub paused_at : Option ℕ

abbrev pub new_tracker : AuthPauseTracker
new_tracker = record { consecutive_auth_failures = 0; paused_at = none }

abbrev pub is_none : Option ℕ → Bool
is_none none = true
is_none (some t) = false

abbrev pub is_some : Option ℕ → Bool
is_some none = false
is_some (some t) = true

-- The counter is a u32.
unfoldable pub record_auth_failure : AuthPauseTracker → ℕ → AuthPauseTracker × Bool
record_auth_failure s now =
    let n = (s.consecutive_auth_failures + 1) % 2 ^ 32 in
    if leb auth_failures_threshold n && is_none s.paused_at
    then (record { consecutive_auth_failures = n; paused_at = some now }, true)
    else (record { consecutive_auth_failures = n; paused_at = s.paused_at }, false)

unfoldable pub record_non_auth_failure : AuthPauseTracker → AuthPauseTracker
record_non_auth_failure s = record { consecutive_auth_failures = 0; paused_at = s.paused_at }

unfoldable pub record_success : AuthPauseTracker → AuthPauseTracker × Bool
record_success s = (new_tracker, is_some s.paused_at)

unfoldable pub purge : AuthPauseTracker → AuthPauseTracker × Bool
purge s = (new_tracker, is_some s.paused_at)

abbrev pub checked_at : AuthPauseTracker → ℕ → Option ℕ → AuthPauseTracker × (Bool × Bool)
checked_at s now none = (s, (false, false))
checked_at s now (some t) =
    if leb auth_pause_duration (now - t) then (new_tracker, (false, true)) else (s, (true, false))

-- Whether it is paused, and whether a pause has just ended.
unfoldable pub check_paused : AuthPauseTracker → ℕ → AuthPauseTracker × (Bool × Bool)
check_paused s now = checked_at s now s.paused_at

abbrev pub paused_since : ℕ → Option ℕ → Bool
paused_since now none = false
paused_since now (some t) = ltb (now - t) auth_pause_duration

unfoldable pub is_paused : AuthPauseTracker → ℕ → Bool
is_paused s now = paused_since now s.paused_at

pub record PoolStats : Type 0 where
  pub latency_samples : List ℕ
  pub consecutive_failures : ℕ
  pub consecutive_auth_failures : ℕ
  pub auth_tracker : AuthPauseTracker
  pub last_sample_time : Option ℕ

abbrev pub new_stats : PoolStats
new_stats = record {
  latency_samples = [];
  consecutive_failures = 0;
  consecutive_auth_failures = 0;
  auth_tracker = new_tracker;
  last_sample_time = none;
}

-- The stats with the tracker, whose counter they repeat.
abbrev pub with_tracker : PoolStats → AuthPauseTracker → PoolStats
with_tracker st tracker = record st {
  auth_tracker = tracker;
  consecutive_auth_failures = tracker.consecutive_auth_failures;
}

-- The ten newest samples are kept.
abbrev pub with_sample : List ℕ → ℕ → List ℕ
with_sample samples ms = (if length samples == 10 then drop 1 samples else samples) ++ (ms ∷ [])

unfoldable pub record_latency : PoolStats → ℕ → ℕ → PoolStats × Bool
unfolding record_success
record_latency st now ms =
    let (tracker, unpaused) = record_success st.auth_tracker in
    (
      with_tracker
          (record st {
            latency_samples = with_sample st.latency_samples ms;
            last_sample_time = some now;
            consecutive_failures = 0;
          })
          tracker,
      unpaused,
    )

abbrev pub failed_as : Bool → AuthPauseTracker → ℕ → AuthPauseTracker × Bool
failed_as is_auth tracker now =
    if is_auth then record_auth_failure tracker now else (record_non_auth_failure tracker, false)

unfoldable pub record_failure_typed : PoolStats → ℕ → Bool → PoolStats × Bool
unfolding record_auth_failure record_non_auth_failure
record_failure_typed st now is_auth =
    let (tracker, just_paused) = failed_as is_auth st.auth_tracker now in
    (
      with_tracker (record st { consecutive_failures = (st.consecutive_failures + 1) % 2 ^ 32 })
          tracker,
      just_paused,
    )

unfoldable pub purge_auth_pause : PoolStats → PoolStats × Bool
unfolding purge
purge_auth_pause st =
    let (tracker, unpaused) = purge st.auth_tracker in (with_tracker st tracker, unpaused)

unfoldable pub check_auth_pause : PoolStats → ℕ → PoolStats × (Bool × Bool)
unfolding check_paused
check_auth_pause st now =
    let (tracker, result) = check_paused st.auth_tracker now in (with_tracker st tracker, result)

unfoldable pub is_auth_paused : PoolStats → ℕ → Bool
unfolding is_paused
is_auth_paused st now = is_paused st.auth_tracker now

unfoldable pub is_healthy : PoolStats → Bool
is_healthy st = ltb st.consecutive_failures 3
