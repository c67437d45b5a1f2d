-- ===== src/Auth/Replay.antt =====
-- crypto/hello_auth.rs: the cache of tokens that were seen, and the verification of a token.
use mirage_android.Prelude.{
  ℕ, suc, ◌+◌, ◌-◌, ◌*◌, ◌/◌, ◌%◌, ◌^◌, Bool, true, false, List, [], ◌∷◌, if◌then◌else◌, Text,
  length, take, drop, leb, ltb, ◌==◌, ◌||◌, text_eq, Option, none, some,
}
use mirage_android.Auth.Token.{
  Digests, token_ts_bytes, from_be, poly1305_tag, saturating_add, ts_within_tolerance,
}

abbrev pub replay_bucket_secs : ℕ
replay_bucket_secs = 10

-- The newest bucket seen, and the tokens of each bucket.
pub record TokenReplayCache : Type 0 where
  pub hwm : ℕ
  pub buckets : List (ℕ × List Text)

abbrev pub new_cache : TokenReplayCache
new_cache = record { hwm = 0; buckets = [] }

abbrev pub entry : ℕ → List (ℕ × List Text) → List Text
entry k [] = []
entry k ((j, tokens) ∷ bs) = if k == j then tokens else entry k bs

abbrev pub put : ℕ → List Text → List (ℕ × List Text) → List (ℕ × List Text)
put k tokens [] = (k, tokens) ∷ []
put k tokens ((j, old) ∷ bs) =
    let rest = put k tokens bs in if k == j then (k, tokens) ∷ bs else (j, old) ∷ rest

abbrev pub retain : ℕ → ℕ → List (ℕ × List Text) → List (ℕ × List Text)
retain hwm retain_buckets [] = []
retain hwm retain_buckets ((j, tokens) ∷ bs) =
    let rest = retain hwm retain_buckets bs in
    if leb (hwm - j) retain_buckets then (j, tokens) ∷ rest else rest

abbrev pub contains : List Text → Text → Bool
contains [] t = false
contains (u ∷ us) t = text_eq u t || contains us t

-- A clock that went back far resets the cache.
abbrev pub advanced : TokenReplayCache → ℕ → ℕ → TokenReplayCache
advanced c current retain_buckets =
    if ltb (saturating_add current retain_buckets) c.hwm
    then record { hwm = current; buckets = [] }
    else record { hwm = if ltb c.hwm current then current else c.hwm; buckets = c.buckets }

abbrev pub inserted : TokenReplayCache → ℕ → List Text → Text → TokenReplayCache × Bool
inserted c current bucket token =
    if ltb 100000 (length bucket)
    then (c, false)
    else if contains bucket token
    then (c, false)
    else (record { hwm = c.hwm; buckets = put current (token ∷ bucket) c.buckets }, true)

-- The cache after the call, and whether the token is new.
unfoldable pub check_and_insert : TokenReplayCache → ℕ → Text → ℕ → TokenReplayCache × Bool
check_and_insert c ts token retain_buckets =
    let current = ts / replay_bucket_secs in
    let c' = advanced c current retain_buckets in
    let kept = retain c'.hwm retain_buckets c'.buckets in
    inserted (record { hwm = c'.hwm; buckets = kept }) current (entry current kept) token

abbrev pub retained_buckets : ℕ → ℕ
retained_buckets tolerance_secs = 2 * tolerance_secs % 2 ^ 64 / replay_bucket_secs + 2

-- The clock is read by the caller.
unfoldable pub verify_session_token :
    Digests → Text → ℕ → ℕ → TokenReplayCache → Text → Text → TokenReplayCache × Bool
verify_session_token d password tolerance_secs now c token bind =
    let ts_bytes = token_ts_bytes d password token in
    let ts = from_be 0 ts_bytes in
    if text_eq (poly1305_tag d password ts_bytes (take 8 token) bind) (drop 16 token)
    then if ts_within_tolerance ts now tolerance_secs
      then check_and_insert c ts token (retained_buckets tolerance_secs)
      else (c, false)
    else (c, false)

-- The first of the passwords that the token verifies with.
unfoldable pub identify_from :
    Digests → List Text → ℕ → ℕ → ℕ → TokenReplayCache → Text → Text → TokenReplayCache × Option ℕ
unfolding verify_session_token
identify_from d [] i tolerance_secs now c token bind = (c, none)
identify_from d (pw ∷ pws) i tolerance_secs now c token bind =
    let (c', ok) = verify_session_token d pw tolerance_secs now c token bind in
    let rest = identify_from d pws (suc i) tolerance_secs now c' token bind in
    if ok then (c', some i) else rest

unfoldable pub identify_session_token :
    Digests → List Text → ℕ → ℕ → TokenReplayCache → Text → Text → TokenReplayCache × Option ℕ
unfolding identify_from
identify_session_token d passwords tolerance_secs now c token bind =
    identify_from d passwords 0 tolerance_secs now c token bind
