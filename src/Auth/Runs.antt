-- ===== src/Auth/Runs.antt =====
-- crypto/hello_auth.rs: the calls of `verify_session_token` that a server makes, one after the other.
use mirage_android.Prelude.{
  ℕ, ◌+◌, ◌*◌, ◌/◌, ◌^◌, ◌≤◌, ◌<◌, ◌≡◌, ◌≢◌, ◌⊎◌, inl, inr, refl, sym, subst, ◌∙◌, Bool, true,
  false, List, [], ◌∷◌, arith, if◌then◌else◌, Text, take, drop, text_eq, All, Bool-cases,
}
use mathlib.Core.Bool.{false≢true}
use mirage_android.Auth.Token.{Digests, token_ts_bytes, from_be, poly1305_tag, ts_within_tolerance}
use mirage_android.Auth.Replay.{
  TokenReplayCache, new_cache, check_and_insert, retained_buckets, verify_session_token,
}
use mirage_android.Auth.Once.{
  Kept, Near, check_and_insert-Kept, check_and_insert-hwm, Kept-refused, accepted-Kept,
}

-- A verification, at the clock's time.
pub record Call : Type 0 where
  pub now : ℕ
  pub token : Text
  pub bind : Text

-- The tokens that are accepted, in order.
unfoldable pub accepted : Digests → Text → ℕ → TokenReplayCache → List Call → List Text
unfolding verify_session_token
accepted d password tolerance_secs c [] = []
accepted d password tolerance_secs c (x ∷ xs) =
    let (c', ok) = verify_session_token d password tolerance_secs x.now c x.token x.bind in
    let rest = accepted d password tolerance_secs c' xs in if ok then x.token ∷ rest else rest

-- The clock does not go back, and stays within a u64 with the tolerance added.
abbrev pub IsClock : ℕ → ℕ → List Call → Type 0
IsClock tolerance_secs now [] = Unit
IsClock tolerance_secs now (x ∷ xs) =
    (now ≤ x.now) × (x.now + tolerance_secs < 2 ^ 64) × IsClock tolerance_secs x.now xs

abbrev pub Distinct : List Text → Type 0
Distinct [] = Unit
Distinct (t ∷ ts) = All (λ u. t ≢ u) ts × Distinct ts

All-if {κ} :
    (P : Text → Type κ) (b : Bool) (t : Text) (ts : List Text)
    → (b ≡ true → P t)
    → All P ts
    → All P (if b then t ∷ ts else ts)
All-if P true t ts h all = (h refl, all)
All-if P false t ts h all = all

Distinct-if :
    (b : Bool) (t : Text) (ts : List Text)
    → (b ≡ true → All (λ u. t ≢ u) ts)
    → Distinct ts
    → Distinct (if b then t ∷ ts else ts)
Distinct-if true t ts h distinct = (h refl, distinct)
Distinct-if false t ts h distinct = distinct

module _ (d : Digests) (password : Text) (tolerance_secs : ℕ)
    (small : 2 * tolerance_secs < 2 ^ 64) where
  abbrev r : ℕ
  r = retained_buckets tolerance_secs

  abbrev ts_of : Text → ℕ
  ts_of token = from_be 0 (token_ts_bytes d password token)

  abbrev Watched : Text → TokenReplayCache → Type 0
  Watched t c = Kept r (ts_of t / 10) t c

  Near-at :
      (now ts : ℕ) (c : TokenReplayCache)
      → now + tolerance_secs < 2 ^ 64
      → c.hwm ≤ (now + tolerance_secs) / 10
      → ts_within_tolerance ts now tolerance_secs ≡ true
      → Near r tolerance_secs now ts c
  unfolding ts_within_tolerance
  Near-at now ts c within hwm e = record {
    window = omega arith;
    not_old = ground (arith, e);
    not_new = ground (arith, e);
    within = within;
    hwm = hwm;
  }

  -- A verification ends before the cache, or it asks the cache near the token's time.
  verify-cases :
      (x : Call) (c : TokenReplayCache)
      → x.now + tolerance_secs < 2 ^ 64
      → c.hwm ≤ (x.now + tolerance_secs) / 10
      → (verify_session_token d password tolerance_secs x.now c x.token x.bind ≡ (c, false))
        ⊎ (Near r tolerance_secs x.now (ts_of x.token) c
            × (verify_session_token d password tolerance_secs x.now c x.token x.bind
                ≡ check_and_insert c (ts_of x.token) x.token r))
  unfolding verify_session_token
  verify-cases x c within hwm =
      let tag : Bool =
        text_eq
          (poly1305_tag d password (token_ts_bytes d password x.token) (take 8 x.token) x.bind)
          (drop 16 x.token) in
      let timely : Bool = ts_within_tolerance (ts_of x.token) x.now tolerance_secs in
      elim (Bool-cases tag) [
        | inr wrong ↦ inl (rw wrong refl)
        | inl right ↦ elim (Bool-cases timely) [
          | inr late ↦ inl (rw (right, late) refl)
          | inl near ↦ inr (Near-at x.now (ts_of x.token) c within hwm near, rw (right, near) refl)
        ]
      ]

  -- What a verification leaves of the cache, and when it accepts.
  record Step (x : Call) (c c' : TokenReplayCache) (ok : Bool) : Type 0 where
    watched : (t : Text) → Watched t c → Watched t c'
    hwm : c'.hwm ≤ (x.now + tolerance_secs) / 10
    refused : Watched x.token c → ok ≡ false
    stored : ok ≡ true → Watched x.token c'

  by_cases :
      (x : Call) (c : TokenReplayCache)
      → c.hwm ≤ (x.now + tolerance_secs) / 10
      → (result : TokenReplayCache × Bool)
      → (result ≡ (c, false))
        ⊎ (Near r tolerance_secs x.now (ts_of x.token) c
            × (result ≡ check_and_insert c (ts_of x.token) x.token r))
      → Step x c result.0 result.1
  by_cases x c hwm result (inl e) = rw e (record {
    watched = λ t h. h;
    hwm = hwm;
    refused = λ h. refl;
    stored = λ e'. absurd (false≢true e');
  })
  by_cases x c hwm result (inr (near, e)) =
      let ts : ℕ = ts_of x.token in
      rw e (record {
        watched = λ t h.
            check_and_insert-Kept r tolerance_secs x.now ts c near (ts_of t / 10) t x.token h;
        hwm = check_and_insert-hwm r tolerance_secs x.now ts c near x.token;
        refused = Kept-refused r tolerance_secs x.now ts c near x.token;
        stored = accepted-Kept r tolerance_secs x.now ts c near x.token;
      })

  verify-Step :
      (x : Call) (c : TokenReplayCache)
      → x.now + tolerance_secs < 2 ^ 64
      → c.hwm ≤ (x.now + tolerance_secs) / 10
      → let (c', ok) = verify_session_token d password tolerance_secs x.now c x.token x.bind in
        Step x c c' ok
  verify-Step x c within hwm =
      by_cases x c hwm (verify_session_token d password tolerance_secs x.now c x.token x.bind)
        (verify-cases x c within hwm)

  never_again :
      (t : Text) (now : ℕ) (c : TokenReplayCache) (xs : List Call)
      → Watched t c
      → c.hwm ≤ (now + tolerance_secs) / 10
      → IsClock tolerance_secs now xs
      → All (λ u. t ≢ u) (accepted d password tolerance_secs c xs)
  unfolding accepted
  never_again t now c [] h hwm clock = tt
  never_again t now c (x ∷ xs) h hwm (later, within, clock) =
      let step = verify-Step x c within (omega arith) in
      let (c', ok) = verify_session_token d password tolerance_secs x.now c x.token x.bind in
      All-if (λ u. t ≢ u) ok x.token (accepted d password tolerance_secs c' xs)
        (λ e same. false≢true (sym (step.refused (subst (λ u. Watched u c) same h)) ∙ e))
        (never_again t x.now c' xs (step.watched t h) step.hwm clock)

  accepted-Distinct_from :
      (now : ℕ) (c : TokenReplayCache) (xs : List Call)
      → c.hwm ≤ (now + tolerance_secs) / 10
      → IsClock tolerance_secs now xs
      → Distinct (accepted d password tolerance_secs c xs)
  unfolding accepted
  accepted-Distinct_from now c [] hwm clock = tt
  accepted-Distinct_from now c (x ∷ xs) hwm (later, within, clock) =
      let step = verify-Step x c within (omega arith) in
      let (c', ok) = verify_session_token d password tolerance_secs x.now c x.token x.bind in
      Distinct-if ok x.token (accepted d password tolerance_secs c' xs)
        (λ e. never_again x.token x.now c' xs (step.stored e) step.hwm clock)
        (accepted-Distinct_from x.now c' xs step.hwm clock)

  -- For one password and a tolerance below 2^63 seconds, and a clock that does not go back and
  -- stays below 2^64 with the tolerance added: whatever tokens a server that starts with an empty
  -- cache is asked to verify, it accepts none of them twice.
  pub accepted-Distinct :
      (now : ℕ) (xs : List Call)
      → IsClock tolerance_secs now xs
      → Distinct (accepted d password tolerance_secs new_cache xs)
  accepted-Distinct now xs clock = accepted-Distinct_from now new_cache xs (omega arith) clock
