-- ===== src/Tests/Idles.antt =====
-- The idle profiles at concrete inputs; ratios are whole numbers here.
use mirage_android.Prelude.{
  ℕ, ◌/◌, ◌≤◌, true, false, none, some, List, [], ◌∷◌, arith, text_key, leb,
}
use mirage_android.Data.Maps.{get}
use mirage_android.Data.Texts.{bytes, to_ascii_lowercase}
use mirage_android.Idle.Kinds.{idle_timeout_hit}
use mirage_android.Idle.Profiles.{Platform}
use mirage_android.Idle.Classify.{compute_adaptive_timeout}
use mirage_android.Idle.Tuned.{IsStore}
use mirage_android.Idle.Reach.{
  Event, classified, timed, closed, run, run-IsStore, compute_adaptive_timeout-IsStore,
}

abbrev platform : Platform
platform = record {
  F32 = ℕ;
  one = 1;
  divide = λ a b. a / b;
  at_least_six = λ r. leb 6 r;
  to_lowercase = to_ascii_lowercase;
}

empty-IsStore : IsStore platform []
unfolding get
empty-IsStore = (tt, omega arith, λ d p e. cc)

abbrev events : List Event
events =
    classified 100 none 443 (some (bytes "api.test")) none
    ∷ closed 140 (some (bytes "api.test")) 500 900 30000 idle_timeout_hit false
    ∷ timed 142 none 443 (some (bytes "API.test")) true none
    ∷ []

run-IsStore_example : IsStore platform (run platform events [])
run-IsStore_example = run-IsStore platform events [] empty-IsStore

compute_adaptive_timeout-IsStore_example :
    (10 ≤ (compute_adaptive_timeout platform 5 none 443 (some (bytes "a.test")) true none []).0)
    × ((compute_adaptive_timeout platform 5 none 443 (some (bytes "a.test")) true none []).0 ≤ 900)
    × IsStore platform
        (compute_adaptive_timeout platform 5 none 443 (some (bytes "a.test")) true none []).1
compute_adaptive_timeout-IsStore_example =
    compute_adaptive_timeout-IsStore platform 5 none 443 (some (bytes "a.test")) true none []
      empty-IsStore
