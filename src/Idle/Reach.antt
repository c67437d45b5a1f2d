-- ===== src/Idle/Reach.antt =====
-- tun/adaptive_idle.rs: the stores that connections lead to, and the timeouts they get.
use mirage_android.Prelude.{
  ℕ, ◌≤◌, ◌≡◌, refl, Bool, true, false, not, Option, none, some, List, [], ◌∷◌, arith, if_keeps,
  Text, text_key,
}
use mirage_android.Data.Maps.{get}
use mirage_android.Net.Address.{IpAddr}
use mirage_android.Idle.Kinds.{
  TrafficCategory, interactive, media_cdn, push_im, general_api, CloseReason, idle_timeout,
  is_interactive_port,
}
use mirage_android.Idle.Profiles.{Platform, Profile, Profiles, is_push}
use mirage_android.Idle.Classify.{
  Verdict, app_is_im, assigned_of, assigned_or, timeout_of, classify_connection,
  compute_adaptive_timeout,
}
use mirage_android.Idle.Learn.{record_conn_metrics}
use mirage_android.Idle.Tuned.{Band-bounds, IsTuned, IsStore}
use mirage_android.Idle.Store.{IsVerdict, classify_connection-IsStore, record_conn_metrics-IsStore}

-- One connection begins, is timed, or ends.
pub data Event : Type 0 where
  classified : ℕ → Option IpAddr → ℕ → Option Text → Option Text → Event
  timed : ℕ → Option IpAddr → ℕ → Option Text → Bool → Option Text → Event
  closed : ℕ → Option Text → ℕ → ℕ → ℕ → CloseReason → Bool → Event

module _ (platform : Platform) where
  abbrev pub apply_event : Event → Profiles platform → Profiles platform
  apply_event (classified now ip port domain app) m =
      (classify_connection platform now ip port domain app m).1
  apply_event (timed now ip port domain active app) m =
      (compute_adaptive_timeout platform now ip port domain active app m).1
  apply_event (closed now domain up down duration reason reused) m =
      record_conn_metrics platform now domain up down duration reason reused m

  unfoldable pub run : List Event → Profiles platform → Profiles platform
  unfolding classify_connection compute_adaptive_timeout record_conn_metrics
  run [] m = m
  run (e ∷ es) m = run es (apply_event e m)

  -- A timeout in seconds, and the store after it.
  abbrev IsTimeout : ℕ × Profiles platform → Type 0
  IsTimeout (secs, m) = (10 ≤ secs) × (secs ≤ 900) × IsStore platform m

  idle_timeout-bounds :
      (c : TrafficCategory) (active : Bool)
      → (10 ≤ idle_timeout c active) × (idle_timeout c active ≤ 900)
  unfolding idle_timeout
  idle_timeout-bounds interactive active = (omega arith, omega arith)
  idle_timeout-bounds media_cdn true = (omega arith, omega arith)
  idle_timeout-bounds media_cdn false = (omega arith, omega arith)
  idle_timeout-bounds push_im active = (omega arith, omega arith)
  idle_timeout-bounds general_api true = (omega arith, omega arith)
  idle_timeout-bounds general_api false = (omega arith, omega arith)

  assigned_or-bounds :
      (other : ℕ) (o : Option (Profile platform))
      → (10 ≤ other) × (other ≤ 900)
      → ((p : Profile platform) → o ≡ some p → IsTuned platform p)
      → (10 ≤ assigned_or platform other o) × (assigned_or platform other o ≤ 900)
  assigned_or-bounds other none h k = h
  assigned_or-bounds other (some p) h k = Band-bounds p.category p.assigned_idle_secs (k p refl)

  assigned_of-bounds :
      (domain : Option Text) (m : Profiles platform) (other : ℕ)
      → (10 ≤ other) × (other ≤ 900)
      → IsStore platform m
      → (10 ≤ assigned_of platform domain m other) × (assigned_of platform domain m other ≤ 900)
  assigned_of-bounds none m other h k = h
  assigned_of-bounds (some d) m other h k =
      assigned_or-bounds other (get m (platform.to_lowercase d)) h
        (λ p e. k.2 (platform.to_lowercase d) p e)

  timeout_of-bounds :
      (domain : Option Text) (active : Bool) (v : Verdict platform)
      → IsVerdict platform v
      → IsTimeout (timeout_of platform domain active v)
  timeout_of-bounds domain active ((c, secs), m) (band, h) =
      if_keeps IsTimeout (is_push c) (λ e. (omega arith, omega arith, h))
        (λ e.
          if_keeps IsTimeout (not active) (λ e. (omega arith, omega arith, h))
            (λ e.
              let (lo, hi) =
                assigned_of-bounds domain m (idle_timeout c active) (idle_timeout-bounds c active)
                  h in
              (lo, hi, h)))

  -- In a well-formed store, the timeout that a connection gets is from 10 to 900 seconds, whatever
  -- its address, port, domain and app are, and the store stays well formed: one profile for each
  -- domain, at most 512 of them, and each timeout in the code's band for its kind (300 seconds for
  -- terminals, 10 for media, 900 for messages, 20 to 120 for the rest).
  pub compute_adaptive_timeout-IsStore :
      (now : ℕ) (dst_ip : Option IpAddr) (dst_port : ℕ) (domain : Option Text) (active : Bool)
      (app : Option Text) (m : Profiles platform)
      → IsStore platform m
      → IsTimeout (compute_adaptive_timeout platform now dst_ip dst_port domain active app m)
  unfolding compute_adaptive_timeout
  compute_adaptive_timeout-IsStore now dst_ip dst_port domain active app m h =
      if_keeps IsTimeout (app_is_im platform app) (λ e. (omega arith, omega arith, h))
        (λ e.
          if_keeps IsTimeout (is_interactive_port dst_port) (λ e. (omega arith, omega arith, h))
            (λ e.
              timeout_of-bounds domain active
                (classify_connection platform now dst_ip dst_port domain app m)
                (classify_connection-IsStore platform now dst_ip dst_port domain app m h)))

  apply_event-IsStore :
      (e : Event) (m : Profiles platform) → IsStore platform m → IsStore platform (apply_event e m)
  apply_event-IsStore (classified now ip port domain app) m h =
      (classify_connection-IsStore platform now ip port domain app m h).1
  apply_event-IsStore (timed now ip port domain active app) m h =
      (compute_adaptive_timeout-IsStore now ip port domain active app m h).2
  apply_event-IsStore (closed now domain up down duration reason reused) m h =
      record_conn_metrics-IsStore platform now domain up down duration reason reused m h

  -- After any sequence of classifications, timeouts and closed connections that begins with a
  -- well-formed store, the store of profiles is well formed: one profile for each domain, at most
  -- 512 of them, and each timeout in the code's band for its kind (300 seconds for terminals, 10
  -- for media, 900 for messages, 20 to 120 for the rest).
  pub run-IsStore :
      (events : List Event) (m : Profiles platform)
      → IsStore platform m
      → IsStore platform (run events m)
  unfolding run
  run-IsStore [] m h = h
  run-IsStore (e ∷ events) m h = run-IsStore events (apply_event e m) (apply_event-IsStore e m h)
