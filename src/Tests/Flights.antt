-- ===== src/Tests/Flights.antt =====
-- The server's flight and the pool's statistics at concrete inputs.
use mirage_android.Prelude.{
  ℕ, zero, suc, ◌≤◌, ◌<◌, ◌⊎◌, ◌≡◌, refl, true, false, some, List, [], ◌∷◌, ◌++◌, arith, Text,
  length, text_eq, All,
}
use mirage_android.Handshake.Templates.{
  Filler, Outside, fallback_server_hello, template_is_complete, get_server_hello_pfs,
  get_session_id, pick_cipher, sid_of,
}
use mirage_android.Handshake.Complete.{IsTemplate}
use mirage_android.Handshake.Cache.{
  IsFiller, IsOutside, fallback-IsTemplate, get_server_hello_pfs-template_is_complete,
}
use mirage_android.Pool.Flight.{ok, read_server_handshake, no_random}
use mirage_android.Pool.Answer.{read_server_handshake-fallback_server_hello}
use mirage_android.Pool.Stats.{new_stats, check_auth_pause, is_auth_paused, auth_failures_threshold}
use mirage_android.Pool.Pauses.{Op, latency, failure, checked, run, IsStats, run-IsStats}

abbrev nines : ℕ → Text
nines zero = []
nines (suc n) = 9 ∷ nines n

abbrev filler : Filler
filler = record { random = nines 32; key_share = nines 32; flight = nines 5 }

filler-IsFiller : IsFiller filler
filler-IsFiller = record { random = refl; key_share = refl; flight = omega arith }

-- A hello with a session id of two bytes that offers AES-256 alone.
abbrev hello : Text
hello = nines 43 ++ (2 ∷ 1 ∷ 1 ∷ 0 ∷ 2 ∷ 0x13 ∷ 0x02 ∷ [])

abbrev cached : Text
cached = fallback_server_hello filler hello (4 ∷ [])

abbrev outside : Outside
outside = record {
  warming = false;
  templates = [];
  filler = filler;
  drawn = 3;
  new_random = nines 32;
}

outside-IsOutside : IsOutside outside
outside-IsOutside = record { templates = tt; filler = filler-IsFiller; new_random = refl }

sid_short : length (sid_of (get_session_id hello)) ≤ 255
unfolding get_session_id
sid_short = omega arith

get_server_hello_pfs-template_is_complete_example :
    All IsTemplate (get_server_hello_pfs outside (cached ∷ []) hello (some (nines 32))).0
    × (template_is_complete (get_server_hello_pfs outside (cached ∷ []) hello (some (nines 32))).1
        ≡ true)
get_server_hello_pfs-template_is_complete_example =
    get_server_hello_pfs-template_is_complete outside hello (some (nines 32)) outside-IsOutside refl
      (cached ∷ []) (fallback-IsTemplate filler hello (4 ∷ []) filler-IsFiller (omega arith), tt)
      sid_short

random_fresh : text_eq (nines 32) no_random ≡ false
unfolding text_eq
random_fresh = refl

read_server_handshake-fallback_server_hello_example :
    read_server_handshake true (fallback_server_hello filler hello (1 ∷ 1 ∷ []) ++ (7 ∷ []))
    ≡ (ok (record { server_random = nines 32; cipher_suite = pick_cipher hello }), 7 ∷ [])
read_server_handshake-fallback_server_hello_example =
    read_server_handshake-fallback_server_hello filler hello (1 ∷ 1 ∷ []) refl refl (omega arith)
      (omega arith) true (7 ∷ []) random_fresh

-- Five failed authentications, and a question after the pause is over.
abbrev happened : List Op
happened =
    latency 3 80
    ∷ failure 4 true
    ∷ failure 5 true
    ∷ failure 6 true
    ∷ failure 7 true
    ∷ failure 8 true
    ∷ checked 9
    ∷ []

run-IsStats_example :
    IsStats (run new_stats happened)
    × ((check_auth_pause (run new_stats happened) 400000).1.0
        ≡ is_auth_paused (run new_stats happened) 400000)
    × ((is_auth_paused (run new_stats happened) 400000 ≡ true)
        ⊎ ((check_auth_pause (run new_stats happened) 400000).0.consecutive_auth_failures
            < auth_failures_threshold))
run-IsStats_example = run-IsStats happened 400000
