-- ===== src/Idle/Store.antt =====
-- tun/adaptive_idle.rs: every operation keeps the store well formed, and what the timeouts are.
use mirage_android.Prelude.{
  ℕ, ◌≤◌, ◌<◌, ◌≡◌, refl, Bool, true, false, not, ◌&&◌, Option, none, some, [], ◌∷◌, arith,
  if_keeps, Text, text_key, length, leb, inl, inr, Option-cases,
}
use mirage_android.Data.Maps.{
  get, insert, IsMap, length-remove, length-remove-le, remove-IsMap, insert-IsMap,
}
use mirage_android.Net.Address.{IpAddr}
use mirage_android.Idle.Kinds.{
  TrafficCategory, media_cdn, push_im, general_api, CloseReason, server_closed, is_interactive_port,
  is_im_or_push_port, is_image_or_media_cdn, is_push_or_im_service,
}
use mirage_android.Idle.Profiles.{
  Platform, Profile, Profiles, max_profiles_capacity, oldest_after, evict_oldest, make_room,
  is_present, entry_or, fresh_profile, record_initial_profile, touch, is_general,
}
use mirage_android.Idle.Classify.{
  Verdict, by_rule, by_profile, by_domain, app_is_im, is_im_peer, classify_connection,
}
use mirage_android.Idle.Learn.{learn, profile_or, initial_category, record_conn_metrics}
use mirage_android.Idle.Tuned.{
  Band, Band-default, IsTuned, AllTuned, IsStore, touch-IsTuned, learn-IsTuned, length-evict_oldest,
  insert-AllTuned, remove-AllTuned,
}

module _ (platform : Platform) where
  evict_oldest-AllTuned :
      (m : Profiles platform) → AllTuned platform m → AllTuned platform (evict_oldest platform m)
  unfolding evict_oldest
  evict_oldest-AllTuned [] h = h
  evict_oldest-AllTuned ((d, p) ∷ m) h =
      remove-AllTuned platform ((d, p) ∷ m) (oldest_after platform d p.last_seen_secs m) h

  evict_oldest-IsMap : (m : Profiles platform) → IsMap m → IsMap (evict_oldest platform m)
  unfolding evict_oldest
  evict_oldest-IsMap [] h = tt
  evict_oldest-IsMap ((d, p) ∷ m) h =
      remove-IsMap ((d, p) ∷ m) (oldest_after platform d p.last_seen_secs m) h

  make_room-IsStore :
      (m : Profiles platform) (d : Text)
      → IsStore platform m
      → IsStore platform (make_room platform m d)
  unfolding make_room
  make_room-IsStore m d (h, bound, tuned) =
      if_keeps (IsStore platform)
        (leb max_profiles_capacity (length m) && not (is_present platform (get m d)))
        (λ e. (evict_oldest-IsMap m h, shrinks (ground arith), evict_oldest-AllTuned m tuned))
        (λ e. (h, bound, tuned))
    where
      shrinks : 0 < length m → length (evict_oldest platform m) ≤ max_profiles_capacity
      shrinks full = omega (arith, length-evict_oldest platform m h full)

  -- After making room, writing the domain keeps the bound.
  length-insert-new :
      (m : Profiles platform) (d : Text) (p : Profile platform)
      → length m < max_profiles_capacity
      → length (insert m d p) ≤ max_profiles_capacity
  unfolding insert
  length-insert-new m d p h = omega (arith, length-remove-le m d)

  length-insert-old :
      (m : Profiles platform) (d : Text) (p : Profile platform)
      → IsStore platform m
      → (leb max_profiles_capacity (length m) && not (is_present platform (get m d))) ≡ false
      → length (insert m d p) ≤ max_profiles_capacity
  unfolding insert
  length-insert-old m d p (h, bound, tuned) e = elim (Option-cases (get m d)) [
    | inl gone ↦ length-insert-new m d p (ground arith)
    | inr (q, held) ↦ omega (arith, length-remove m d q h held)
  ]

  -- After making room, writing the domain keeps the bound.
  length-insert-make_room :
      (m : Profiles platform) (d : Text) (p : Profile platform)
      → IsStore platform m
      → length (insert (make_room platform m d) d p) ≤ max_profiles_capacity
  unfolding make_room
  length-insert-make_room m d p (h, bound, tuned) =
      if_keeps (λ x. length (insert x d p) ≤ max_profiles_capacity)
        (leb max_profiles_capacity (length m) && not (is_present platform (get m d)))
        (λ e. length-insert-new (evict_oldest platform m) d p (shrinks (ground arith)))
        (λ e. length-insert-old m d p (h, bound, tuned) e)
    where
      shrinks : 0 < length m → length (evict_oldest platform m) < max_profiles_capacity
      shrinks full = omega (arith, length-evict_oldest platform m h full)

  insert-IsStore :
      (m : Profiles platform) (d : Text) (p : Profile platform)
      → IsStore platform m
      → length (insert m d p) ≤ max_profiles_capacity
      → IsTuned platform p
      → IsStore platform (insert m d p)
  insert-IsStore m d p (h, bound, tuned) bound' k =
      (insert-IsMap m d p h, bound', insert-AllTuned platform m d p tuned k)

  record_initial_profile-IsStore :
      (now : ℕ) (d : Text) (c : TrafficCategory) (is_static : Bool) (m : Profiles platform)
      → IsStore platform m
      → IsStore platform (record_initial_profile platform now d c is_static m)
  unfolding record_initial_profile entry_or
  record_initial_profile-IsStore now d c is_static m h =
      let room = make_room-IsStore m d h in
      let fresh = fresh_profile platform d c is_static now 0 server_closed in
      if_keeps (IsStore platform) (is_present platform (get (make_room platform m d) d)) (λ e. room)
        (λ e.
          insert-IsStore (make_room platform m d) d fresh room (length-insert-make_room m d fresh h)
            (Band-default c))

  profile_or-IsTuned :
      (fresh : Profile platform) (o : Option (Profile platform))
      → IsTuned platform fresh
      → ((p : Profile platform) → o ≡ some p → IsTuned platform p)
      → IsTuned platform (profile_or platform fresh o)
  profile_or-IsTuned fresh none h k = h
  profile_or-IsTuned fresh (some p) h k = k p refl

  pub record_conn_metrics-IsStore :
      (now : ℕ) (domain : Option Text) (up down duration_ms : ℕ) (reason : CloseReason)
      (is_reused : Bool) (m : Profiles platform)
      → IsStore platform m
      → IsStore platform
          (record_conn_metrics platform now domain up down duration_ms reason is_reused m)
  unfolding record_conn_metrics
  record_conn_metrics-IsStore now none up down duration_ms reason is_reused m h = h
  record_conn_metrics-IsStore now (some []) up down duration_ms reason is_reused m h = h
  record_conn_metrics-IsStore now (some (c ∷ cs)) up down duration_ms reason is_reused m h =
      let d = platform.to_lowercase (c ∷ cs) in
      let category = initial_category platform d in
      let room = make_room-IsStore m d h in
      let fresh = fresh_profile platform d category (not (is_general category)) now now reason in
      let old = profile_or platform fresh (get (make_room platform m d) d) in
      let tuned = learn-IsTuned platform now up down duration_ms reason is_reused old (
        profile_or-IsTuned fresh (get (make_room platform m d) d) (Band-default category)
          (λ p e. room.2 d p e)) in
      insert-IsStore (make_room platform m d) d
        (learn platform now up down duration_ms reason is_reused old) room
        (length-insert-make_room m d (learn platform now up down duration_ms reason is_reused old)
          h)
        tuned

  -- The timeout is in the band of its kind, and the store is well formed.
  abbrev pub IsVerdict : Verdict platform → Type 0
  IsVerdict ((c, secs), m) = Band c secs × IsStore platform m

  -- The store after a classification.
  by_rule-IsStore :
      (now : ℕ) (d : Text) (m : Profiles platform)
      → IsStore platform m
      → IsVerdict (by_rule platform now d m)
  by_rule-IsStore now d m h =
      if_keeps IsVerdict (is_image_or_media_cdn d)
        (λ e. (refl, record_initial_profile-IsStore now d media_cdn true m h))
        (λ e.
          if_keeps IsVerdict (is_push_or_im_service d)
            (λ e. (refl, record_initial_profile-IsStore now d push_im true m h))
            (λ e. (Band-default general_api, h)))

  length-insert_held :
      (m : Profiles platform) (d : Text) (p q : Profile platform)
      → IsMap m
      → get m d ≡ some q
      → length (insert m d p) ≡ length m
  unfolding insert
  length-insert_held m d p q h held = omega (arith, length-remove m d q h held)

  by_profile-IsStore :
      (now : ℕ) (d : Text) (m : Profiles platform) (o : Option (Profile platform))
      → IsStore platform m
      → get m d ≡ o
      → IsVerdict (by_profile platform now d m o)
  by_profile-IsStore now d m none h e = by_rule-IsStore now d m h
  by_profile-IsStore now d m (some p) h e =
      let tuned = touch-IsTuned platform now p (h.2 d p e) in
      (
        tuned,
        insert-IsStore m d (touch platform now p) h
            (omega (arith, h.1, length-insert_held m d (touch platform now p) p h.0 e)) tuned,
      )

  by_domain-IsStore :
      (now : ℕ) (domain : Option Text) (m : Profiles platform)
      → IsStore platform m
      → IsVerdict (by_domain platform now domain m)
  by_domain-IsStore now none m h = (Band-default general_api, h)
  by_domain-IsStore now (some d) m h =
      by_profile-IsStore now (platform.to_lowercase d) m (get m (platform.to_lowercase d)) h refl

  pub classify_connection-IsStore :
      (now : ℕ) (dst_ip : Option IpAddr) (dst_port : ℕ) (domain source_app : Option Text)
      (m : Profiles platform)
      → IsStore platform m
      → IsVerdict (classify_connection platform now dst_ip dst_port domain source_app m)
  unfolding classify_connection
  classify_connection-IsStore now dst_ip dst_port domain source_app m h =
      if_keeps IsVerdict (app_is_im platform source_app) (λ e. (refl, h))
        (λ e.
          if_keeps IsVerdict (is_interactive_port dst_port) (λ e. (refl, h))
            (λ e.
              if_keeps IsVerdict (is_im_or_push_port dst_port) (λ e. (refl, h))
                (λ e.
                  if_keeps IsVerdict (is_im_peer platform dst_ip dst_port) (λ e. (refl, h))
                    (λ e. by_domain-IsStore now domain m h))))
