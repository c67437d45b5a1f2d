-- ===== src/Idle/Tuned.antt =====
-- tun/adaptive_idle.rs: the store stays small, and each timeout stays in the band of its kind.
use mirage_android.Prelude.{
  ℕ, ◌+◌, ◌*◌, ◌/◌, ◌≤◌, ◌<◌, ◌≡◌, refl, sym, ◌∙◌, subst, Bool, true, false, not, ◌&&◌, Option,
  none, some, [], ◌∷◌, arith, if◌then◌else◌, if_keeps, Text, text_eq, text_key, length, leb, ltb,
  ◌⊎◌, inl, inr, Bool-cases,
}
use mirage_android.Data.Maps.{
  get, insert, remove, IsMap, get-insert, get-remove, same_refl, length-remove,
}
use mirage_android.Idle.Kinds.{
  TrafficCategory, interactive, media_cdn, push_im, general_api, default_idle_secs, CloseReason,
}
use mirage_android.Idle.Profiles.{
  Platform, Profile, Profiles, max_profiles_capacity, oldest_after, evict_oldest, touch, is_churn,
  is_general, is_idle_close, capped, floored, u64,
}
use mirage_android.Idle.Learn.{count_connection, decay, evolve, learn}

-- The timeouts that a kind of traffic may have.
abbrev pub Band : TrafficCategory → ℕ → Type 0
Band interactive s = s ≡ 300
Band media_cdn s = s ≡ 10
Band push_im s = s ≡ 900
Band general_api s = (20 ≤ s) × (s ≤ 120)

pub Band-bounds : (c : TrafficCategory) (s : ℕ) → Band c s → (10 ≤ s) × (s ≤ 900)
Band-bounds interactive s h = (omega arith, omega arith)
Band-bounds media_cdn s h = (omega arith, omega arith)
Band-bounds push_im s h = (omega arith, omega arith)
Band-bounds general_api s h = (omega arith, omega arith)

pub Band-default : (c : TrafficCategory) → Band c (default_idle_secs c)
Band-default interactive = refl
Band-default media_cdn = refl
Band-default push_im = refl
Band-default general_api = (omega arith, omega arith)

-- A new timeout of a general profile.
general-Band :
    (c : TrafficCategory) (s s' : ℕ)
    → is_general c ≡ true
    → Band c s
    → (20 ≤ s → s ≤ 120 → (20 ≤ s') × (s' ≤ 120))
    → Band c s'
general-Band interactive s s' g h f = cc
general-Band media_cdn s s' g h f = cc
general-Band push_im s s' g h f = cc
general-Band general_api s s' g (lo, hi) f = f lo hi

longer_timeout :
    (s : ℕ)
    → 20 ≤ s
    → s ≤ 120
    → (20 ≤ capped 120 (u64 (s * 15) / 10)) × (capped 120 (u64 (s * 15) / 10) ≤ 120)
longer_timeout s lo hi = ground arith

shorter_timeout :
    (s : ℕ)
    → 20 ≤ s
    → s ≤ 120
    → (20 ≤ floored 20 (u64 (s * 8) / 10)) × (floored 20 (u64 (s * 8) / 10) ≤ 120)
shorter_timeout s lo hi = ground arith

module _ (platform : Platform) where
  abbrev pub IsTuned : Profile platform → Type 0
  IsTuned p = Band p.category p.assigned_idle_secs

  abbrev pub AllTuned : Profiles platform → Type 0
  AllTuned m = (d : Text) (p : Profile platform) → get m d ≡ some p → IsTuned p

  -- One entry for each domain, at most 512 entries, each timeout in its band.
  abbrev pub IsStore : Profiles platform → Type 0
  IsStore m = IsMap m × (length m ≤ max_profiles_capacity) × AllTuned m

  pub touch-IsTuned : (now : ℕ) (p : Profile platform) → IsTuned p → IsTuned (touch platform now p)
  unfolding touch
  touch-IsTuned now p h =
      if_keeps IsTuned (is_churn platform now p)
        (λ e.
          general-Band p.category p.assigned_idle_secs _ (ground arith) h
            (longer_timeout p.assigned_idle_secs))
        (λ e. h)

  decay-IsTuned :
      (reason : CloseReason) (is_reused : Bool) (p : Profile platform)
      → IsTuned p
      → IsTuned (decay platform reason is_reused p)
  unfolding decay
  decay-IsTuned reason is_reused p h =
      if_keeps IsTuned
        (not p.is_static_rule && (is_general p.category && (is_idle_close reason && not is_reused)))
        (λ e.
          general-Band p.category p.assigned_idle_secs _ (ground arith) h
            (shorter_timeout p.assigned_idle_secs))
        (λ e. h)

  evolve-IsTuned :
      (duration_ms : ℕ) (p : Profile platform) → IsTuned p → IsTuned (evolve platform duration_ms p)
  unfolding evolve
  evolve-IsTuned duration_ms p h =
      if_keeps IsTuned (not p.is_static_rule && leb 2 p.sample_count)
        (λ e.
          if_keeps IsTuned
            (platform.at_least_six p.avg_down_up_ratio
              && leb (16 * 1024) (p.total_down_bytes / p.sample_count))
            (λ e. refl)
            (λ e.
              if_keeps IsTuned
                (leb (p.total_up_bytes / p.sample_count) 2048
                  && (leb (p.total_down_bytes / p.sample_count) 4096 && leb 8000 duration_ms))
                (λ e. refl) (λ e. h)))
        (λ e. h)

  pub learn-IsTuned :
      (now up down duration_ms : ℕ) (reason : CloseReason) (is_reused : Bool) (p : Profile platform)
      → IsTuned p
      → IsTuned (learn platform now up down duration_ms reason is_reused p)
  unfolding learn count_connection
  learn-IsTuned now up down duration_ms reason is_reused p h =
      let counted = count_connection platform now up down reason is_reused p in
      evolve-IsTuned duration_ms (decay platform reason is_reused counted)
        (decay-IsTuned reason is_reused counted h)

  abbrev Listed : Profiles platform → Text → Type 0
  Listed m k = (q : Profile platform) × (get m k ≡ some q)

  Listed-cons :
      (d : Text) (p : Profile platform) (m : Profiles platform) (k : Text)
      → (k ≡ d) ⊎ Listed m k
      → Listed ((d, p) ∷ m) k
  unfolding get
  Listed-cons d p m k (inl e) = (p, rw (e, same_refl d) refl)
  Listed-cons d p m k (inr (q, e)) = elim (Bool-cases (text_eq d k)) [
    | inl same ↦ (p, rw same refl)
    | inr other ↦ (q, rw other e)
  ]

  oldest_after-Listed :
      (key : Text) (seen : ℕ) (m : Profiles platform)
      → (oldest_after platform key seen m ≡ key) ⊎ Listed m (oldest_after platform key seen m)
  unfolding oldest_after
  oldest_after-Listed key seen [] = inl refl
  oldest_after-Listed key seen ((d, p) ∷ m) =
      let sooner = oldest_after-Listed d p.last_seen_secs m in
      let later = oldest_after-Listed key seen m in
      if_keeps (λ k. (k ≡ key) ⊎ Listed ((d, p) ∷ m) k) (ltb p.last_seen_secs seen)
        (λ e. inr (Listed-cons d p m (oldest_after platform d p.last_seen_secs m) sooner))
        (λ e. elim later [
          | inl same ↦ inl same
          | inr found ↦ inr (Listed-cons d p m (oldest_after platform key seen m) (inr found))
        ])

  pub length-evict_oldest :
      (m : Profiles platform)
      → IsMap m
      → 0 < length m
      → length (evict_oldest platform m) + 1 ≡ length m
  unfolding evict_oldest
  length-evict_oldest [] h full = absurd (omega arith)
  length-evict_oldest ((d, p) ∷ m) h full =
      let oldest = oldest_after platform d p.last_seen_secs m in
      let (q, e) = Listed-cons d p m oldest (oldest_after-Listed d p.last_seen_secs m) in
      length-remove ((d, p) ∷ m) oldest q h e

  pub insert-AllTuned :
      (m : Profiles platform) (d : Text) (p : Profile platform)
      → AllTuned m
      → IsTuned p
      → AllTuned (insert m d p)
  insert-AllTuned m d p h k = λ d' q e.
      either_tuned (text_eq d d') p q (get m d') k (h d' q) (sym (get-insert m d d' p) ∙ e)
    where
      either_tuned :
          (same : Bool) (p q : Profile platform) (o : Option (Profile platform))
          → IsTuned p
          → (o ≡ some q → IsTuned q)
          → (if same then some p else o) ≡ some q
          → IsTuned q
      either_tuned true p q o k h e =
          let same_profile : p ≡ q = ground arith in subst IsTuned same_profile k
      either_tuned false p q o k h e = h e

  pub remove-AllTuned : (m : Profiles platform) (d : Text) → AllTuned m → AllTuned (remove m d)
  remove-AllTuned m d h =
      λ d' q e. h d' q (kept (text_eq d d') q (get m d') (sym (get-remove m d d') ∙ e))
    where
      kept :
          (same : Bool) (q : Profile platform) (o : Option (Profile platform))
          → (if same then none else o) ≡ some q
          → o ≡ some q
      kept true q o e = cc
      kept false q o e = e
