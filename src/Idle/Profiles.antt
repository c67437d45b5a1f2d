-- ===== src/Idle/Profiles.antt =====
-- tun/adaptive_idle.rs: the store of profiles, classification, and tuning by what a connection did.
use mirage_android.Prelude.{
  ℕ, ◌+◌, ◌-◌, ◌*◌, ◌/◌, ◌%◌, ◌^◌, Bool, true, false, not, ◌&&◌, Option, none, some, [], ◌∷◌,
  if◌then◌else◌, Text, text_key, length, leb, ltb, number_key,
}
use mirage_android.Data.Maps.{Map, get, insert, remove}
use mirage_android.Idle.Kinds.{
  TrafficCategory, interactive, media_cdn, push_im, general_api, default_idle_secs, CloseReason,
  client_closed, server_closed, idle_timeout_hit, error,
}

-- Single-precision numbers and Unicode lower case, of which only these uses are made.
pub record Platform : Type 1 where
  pub F32 : Type 0
  pub one : F32
  pub divide : ℕ → ℕ → F32
  pub at_least_six : F32 → Bool
  pub to_lowercase : Text → Text

pub record DomainProfile (F : Type 0) : Type 0 where
  pub domain : Text
  pub category : TrafficCategory
  pub sample_count : ℕ
  pub total_up_bytes : ℕ
  pub total_down_bytes : ℕ
  pub avg_down_up_ratio : F
  pub assigned_idle_secs : ℕ
  pub is_static_rule : Bool
  pub last_seen_secs : ℕ
  pub churn_penalties : ℕ
  pub zombie_decays : ℕ
  pub reuse_hits : ℕ
  pub last_closed_secs : ℕ
  pub last_close_reason : CloseReason

abbrev pub max_profiles_capacity : ℕ
max_profiles_capacity = 512

abbrev pub is_general : TrafficCategory → Bool
is_general interactive = false
is_general media_cdn = false
is_general push_im = false
is_general general_api = true

abbrev pub is_push : TrafficCategory → Bool
is_push interactive = false
is_push media_cdn = false
is_push push_im = true
is_push general_api = false

abbrev pub is_idle_close : CloseReason → Bool
is_idle_close client_closed = false
is_idle_close server_closed = false
is_idle_close idle_timeout_hit = true
is_idle_close error = false

abbrev pub u32 : ℕ → ℕ
u32 n = n % 2 ^ 32

abbrev pub u64 : ℕ → ℕ
u64 n = n % 2 ^ 64

-- `min` and `max` with a constant.
abbrev pub capped : ℕ → ℕ → ℕ
capped top n = if ltb n top then n else top

abbrev pub floored : ℕ → ℕ → ℕ
floored least n = if ltb n least then least else n

module _ (platform : Platform) where
  open platform use {F32, one}

  abbrev pub Profile : Type 0
  Profile = DomainProfile F32

  abbrev pub Profiles : Type 0
  Profiles = Map Text Profile

  -- `min_by_key`: of the entries last seen the longest ago, the first.
  unfoldable pub oldest_after : Text → ℕ → Profiles → Text
  oldest_after key seen [] = key
  oldest_after key seen ((d, p) ∷ m) =
      let later = oldest_after key seen m in
      let sooner = oldest_after d p.last_seen_secs m in
      if ltb p.last_seen_secs seen then sooner else later

  unfoldable pub evict_oldest : Profiles → Profiles
  unfolding oldest_after remove
  evict_oldest [] = []
  evict_oldest ((d, p) ∷ m) = remove ((d, p) ∷ m) (oldest_after d p.last_seen_secs m)

  abbrev pub is_present : Option Profile → Bool
  is_present none = false
  is_present (some p) = true

  -- A full store gives up its oldest entry for a new domain.
  unfoldable pub make_room : Profiles → Text → Profiles
  unfolding evict_oldest get
  make_room m d =
      if leb max_profiles_capacity (length m) && not (is_present (get m d))
      then evict_oldest m
      else m

  -- `entry(domain).or_insert_with(..)`.
  unfoldable pub entry_or : Profiles → Text → Profile → Profiles
  unfolding get insert
  entry_or m d p = if is_present (get m d) then m else insert m d p

  abbrev pub fresh_profile : Text → TrafficCategory → Bool → ℕ → ℕ → CloseReason → Profile
  fresh_profile d category is_static now closed reason = record {
    domain = d;
    category = category;
    sample_count = 0;
    total_up_bytes = 0;
    total_down_bytes = 0;
    avg_down_up_ratio = one;
    assigned_idle_secs = default_idle_secs category;
    is_static_rule = is_static;
    last_seen_secs = now;
    churn_penalties = 0;
    zombie_decays = 0;
    reuse_hits = 0;
    last_closed_secs = closed;
    last_close_reason = reason;
  }

  unfoldable pub record_initial_profile : ℕ → Text → TrafficCategory → Bool → Profiles → Profiles
  unfolding make_room entry_or
  record_initial_profile now d category is_static m =
      entry_or (make_room m d) d (fresh_profile d category is_static now 0 server_closed)

  -- A reconnect within four seconds of an idle close lengthens the timeout of a learned general profile.
  abbrev pub is_churn : ℕ → Profile → Bool
  is_churn now p =
      not p.is_static_rule
      && (is_general p.category
          && (ltb 0 p.last_closed_secs
              && (leb (now - p.last_closed_secs) 4 && is_idle_close p.last_close_reason)))

  unfoldable pub touch : ℕ → Profile → Profile
  touch now p =
      let seen = record p { last_seen_secs = now } in
      if is_churn now p
      then record seen {
        assigned_idle_secs = capped 120 (u64 (p.assigned_idle_secs * 15) / 10);
        churn_penalties = u32 (p.churn_penalties + 1);
      }
      else seen
