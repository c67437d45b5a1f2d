-- ===== src/Tests/Tokens.antt =====
-- Session tokens at concrete inputs.
use mirage_android.Prelude.{
  ℕ, zero, suc, ◌≡◌, refl, false, List, [], ◌∷◌, arith, if◌then◌else◌, Text,
}
use mirage_android.Data.Texts.{bytes}
use mirage_android.Auth.Token.{Digests, IsDigests, make_session_token, ts_within_tolerance}
use mirage_android.Auth.Replay.{new_cache, check_and_insert, retained_buckets, verify_session_token}
use mirage_android.Auth.Runs.{Call, accepted, Distinct, accepted-Distinct}
use mirage_android.Auth.Opening.{verify_session_token-make_session_token}

abbrev sevens : ℕ → Text
sevens zero = []
sevens (suc n) = 7 ∷ sevens n

abbrev digests : Digests
digests = record {
  sha256 = λ t. t;
  hmac = λ key message. sevens 32;
  poly1305 = λ key message. sevens 16;
}

digests-IsDigests : IsDigests digests
digests-IsDigests = record { hmac_size = λ key message. refl; poly1305_size = λ key message. refl }

abbrev prefix8 : Text
prefix8 = sevens 8

verify_session_token-make_session_token_example :
    verify_session_token digests
      (bytes "pw")
      60
      1030
      new_cache
      (make_session_token digests (bytes "pw") (1 ∷ []) prefix8 1000)
      (1 ∷ [])
    ≡ (if ts_within_tolerance 1000 1030 60
        then check_and_insert new_cache 1000
            (make_session_token digests (bytes "pw") (1 ∷ []) prefix8 1000)
            (retained_buckets 60)
        else (new_cache, false))
verify_session_token-make_session_token_example =
    verify_session_token-make_session_token digests (bytes "pw") (1 ∷ []) prefix8 1000
      digests-IsDigests refl (omega arith) 60 1030 new_cache

-- One token, twice.
abbrev twice : List Call
twice =
    record {
      now = 1010;
      token = make_session_token digests (bytes "pw") (1 ∷ []) prefix8 1000;
      bind = 1 ∷ [];
    }
    ∷ record {
      now = 1030;
      token = make_session_token digests (bytes "pw") (1 ∷ []) prefix8 1000;
      bind = 1 ∷ [];
    }
    ∷ []

accepted-Distinct_example : Distinct (accepted digests (bytes "pw") 60 new_cache twice)
accepted-Distinct_example =
    accepted-Distinct digests (bytes "pw") 60 (omega arith) 1000 twice
      (omega arith, omega arith, (omega arith, omega arith, tt))
