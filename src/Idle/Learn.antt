-- ===== src/Idle/Learn.antt =====
-- tun/adaptive_idle.rs: what a closed connection teaches the profile of its domain.
use mirage_android.Prelude.{
  ℕ, ◌+◌, ◌*◌, ◌/◌, Bool, not, ◌&&◌, Option, none, some, [], ◌∷◌, if◌then◌else◌, Text, text_key,
  leb, number_key,
}
use mirage_android.Data.Maps.{get, insert}
use mirage_android.Idle.Kinds.{
  TrafficCategory, media_cdn, push_im, general_api, CloseReason, is_image_or_media_cdn,
  is_push_or_im_service,
}
use mirage_android.Idle.Profiles.{
  Platform, Profile, Profiles, floored, fresh_profile, is_general, is_idle_close, make_room, u32,
  u64,
}

module _ (platform : Platform) where
  open platform use {divide, at_least_six, to_lowercase}

  unfoldable pub initial_category : Text → TrafficCategory
  unfolding is_image_or_media_cdn is_push_or_im_service
  initial_category d =
      if is_image_or_media_cdn d
      then media_cdn
      else if is_push_or_im_service d
      then push_im
      else general_api

  -- The counters of one more connection.
  unfoldable pub count_connection :
      ℕ → ℕ → ℕ → CloseReason → Bool → Profile platform → Profile platform
  count_connection now up down reason is_reused p =
      let up' = u64 (p.total_up_bytes + up) in
      let down' = u64 (p.total_down_bytes + down) in
      record p {
        sample_count = u64 (p.sample_count + 1);
        total_up_bytes = up';
        total_down_bytes = down';
        last_seen_secs = now;
        last_closed_secs = now;
        last_close_reason = reason;
        avg_down_up_ratio = divide down' (floored 1 up');
        reuse_hits = if is_reused then u32 (p.reuse_hits + 1) else p.reuse_hits;
      }

  -- An idle close without reuse shortens the timeout of a learned general profile.
  unfoldable pub decay : CloseReason → Bool → Profile platform → Profile platform
  decay reason is_reused p =
      if not p.is_static_rule && (is_general p.category && (is_idle_close reason && not is_reused))
      then record p {
        assigned_idle_secs = floored 20 (u64 (p.assigned_idle_secs * 8) / 10);
        zombie_decays = u32 (p.zombie_decays + 1);
      }
      else p

  -- From the second sample on, a learned profile may become one of media or of messages.
  unfoldable pub evolve : ℕ → Profile platform → Profile platform
  evolve duration_ms p =
      let avg_down = p.total_down_bytes / p.sample_count in
      let avg_up = p.total_up_bytes / p.sample_count in
      if not p.is_static_rule && leb 2 p.sample_count
      then if at_least_six p.avg_down_up_ratio && leb (16 * 1024) avg_down
        then record p {
          category = media_cdn;
          assigned_idle_secs = 10;
          churn_penalties = 0;
          zombie_decays = 0;
        }
        else if leb avg_up 2048 && (leb avg_down 4096 && leb 8000 duration_ms)
        then record p {
          category = push_im;
          assigned_idle_secs = 900;
          churn_penalties = 0;
          zombie_decays = 0;
        }
        else p
      else p

  unfoldable pub learn : ℕ → ℕ → ℕ → ℕ → CloseReason → Bool → Profile platform → Profile platform
  unfolding count_connection decay evolve
  learn now up down duration_ms reason is_reused p =
      evolve duration_ms (decay reason is_reused (count_connection now up down reason is_reused p))

  abbrev pub profile_or : (Profile platform) → Option (Profile platform) → Profile platform
  profile_or q none = q
  profile_or q (some p) = p

  unfoldable pub record_conn_metrics :
      ℕ → Option Text → ℕ → ℕ → ℕ → CloseReason → Bool → Profiles platform → Profiles platform
  unfolding make_room initial_category learn get insert
  record_conn_metrics now none up down duration_ms reason is_reused m = m
  record_conn_metrics now (some []) up down duration_ms reason is_reused m = m
  record_conn_metrics now (some (c ∷ cs)) up down duration_ms reason is_reused m =
      let d = to_lowercase (c ∷ cs) in
      let category = initial_category d in
      let room = make_room platform m d in
      let fresh = fresh_profile platform d category (not (is_general category)) now now reason in
      insert room d (learn now up down duration_ms reason is_reused (profile_or fresh (get room d)))
