-- ===== src/Idle/Classify.antt =====
-- tun/adaptive_idle.rs: the classification of a connection and its timeout.
use mirage_android.Prelude.{
  ℕ, Bool, true, false, not, ◌&&◌, Option, none, some, [], ◌∷◌, if◌then◌else◌, Text, text_key,
  contains, number_key,
}
use mirage_android.Data.Maps.{get, insert}
use mirage_android.Net.Address.{IpAddr}
use mirage_android.Idle.Kinds.{
  TrafficCategory, interactive, media_cdn, push_im, general_api, default_idle_secs, idle_timeout,
  is_interactive_port, is_im_or_push_port, is_tencent_or_im_ip, is_image_or_media_cdn,
  is_push_or_im_service, is_im_or_push_package,
}
use mirage_android.Idle.Profiles.{
  Platform, Profile, Profiles, is_push, record_initial_profile, touch,
}

module _ (platform : Platform) where
  open platform use {to_lowercase}

  -- A classification with its timeout in seconds, and the store after it.
  abbrev pub Verdict : Type 0
  Verdict = (TrafficCategory × ℕ) × Profiles platform

  abbrev pub by_rule : ℕ → Text → Profiles platform → Verdict
  by_rule now d m =
      if is_image_or_media_cdn d
      then (
        (media_cdn, default_idle_secs media_cdn),
        record_initial_profile platform now d media_cdn true m,
      )
      else if is_push_or_im_service d
      then (
        (push_im, default_idle_secs push_im),
        record_initial_profile platform now d push_im true m,
      )
      else ((general_api, default_idle_secs general_api), m)

  abbrev pub by_profile : ℕ → Text → Profiles platform → Option (Profile platform) → Verdict
  by_profile now d m none = by_rule now d m
  by_profile now d m (some p) = (
    ((touch platform now p).category, (touch platform now p).assigned_idle_secs),
    insert m d (touch platform now p),
  )

  abbrev pub by_domain : ℕ → Option Text → Profiles platform → Verdict
  by_domain now none m = ((general_api, default_idle_secs general_api), m)
  by_domain now (some d) m = by_profile now (to_lowercase d) m (get m (to_lowercase d))

  abbrev pub app_is_im : Option Text → Bool
  app_is_im none = false
  app_is_im (some app) = is_im_or_push_package to_lowercase app

  abbrev pub is_im_peer : Option IpAddr → ℕ → Bool
  is_im_peer none port = false
  is_im_peer (some a) port = is_tencent_or_im_ip a && contains (80 ∷ 443 ∷ 8080 ∷ 14000 ∷ []) port

  unfoldable pub classify_connection :
      ℕ → Option IpAddr → ℕ → Option Text → Option Text → Profiles platform → Verdict
  unfolding is_im_or_push_package is_interactive_port is_im_or_push_port is_tencent_or_im_ip
      contains touch record_initial_profile get insert is_image_or_media_cdn is_push_or_im_service
  classify_connection now dst_ip dst_port domain source_app m =
      if app_is_im source_app
      then ((push_im, 900), m)
      else if is_interactive_port dst_port
      then ((interactive, 300), m)
      else if is_im_or_push_port dst_port
      then ((push_im, 900), m)
      else if is_im_peer dst_ip dst_port
      then ((push_im, 900), m)
      else by_domain now domain m

  abbrev pub assigned_or : ℕ → Option (Profile platform) → ℕ
  assigned_or other none = other
  assigned_or other (some p) = p.assigned_idle_secs

  abbrev pub assigned_of : Option Text → Profiles platform → ℕ → ℕ
  assigned_of none m other = other
  assigned_of (some d) m other = assigned_or other (get m (to_lowercase d))

  abbrev pub timeout_of : Option Text → Bool → Verdict → ℕ × Profiles platform
  timeout_of domain is_active ((category, secs), m) =
      if is_push category
      then (900, m)
      else if not is_active
      then (15, m)
      else (assigned_of domain m (idle_timeout category is_active), m)

  unfoldable pub compute_adaptive_timeout :
      ℕ
      → Option IpAddr
      → ℕ
      → Option Text
      → Bool
      → Option Text
      → Profiles platform
      → ℕ × Profiles platform
  unfolding classify_connection is_im_or_push_package is_interactive_port idle_timeout get
  compute_adaptive_timeout now dst_ip dst_port domain is_active source_app m =
      if app_is_im source_app
      then (900, m)
      else if is_interactive_port dst_port
      then (300, m)
      else timeout_of domain is_active (classify_connection now dst_ip dst_port domain source_app m)
