-- ===== src/Pool/Flight.antt =====
-- proxy/pool.rs: reading the server's flight.
use mirage_android.Prelude.{
  ℕ, suc, ◌+◌, ◌*◌, Bool, not, [], ◌∷◌, if◌then◌else◌, Text, length, take, drop, ltb, leb, ◌==◌,
  ◌&&◌, text_eq,
}
use mirage_android.Handshake.Templates.{Seen, mark, unseen}

-- Why a handshake is given up.
pub data HandshakeError : Type 0 where
  auth_failure incomplete_body body_timeout incomplete_header timeout_before_ccs incomplete_flight
        zero_random :
      HandshakeError

pub record ServerHandshake : Type 0 where
  pub server_random : Text
  pub cipher_suite : ℕ

pub data Outcome : Type 0 where
  ok : ServerHandshake → Outcome
  failed : HandshakeError → Outcome

-- What the loop has found so far.
pub record Found : Type 0 where
  pub seen : Seen
  pub handshake : ServerHandshake

abbrev pub no_random : Text
no_random =
    0 ∷ 0 ∷ 0 ∷ 0 ∷ 0 ∷ 0 ∷ 0 ∷ 0 ∷ 0 ∷ 0 ∷ 0 ∷ 0 ∷ 0 ∷ 0 ∷ 0 ∷ 0 ∷ 0 ∷ 0 ∷ 0 ∷ 0 ∷ 0 ∷ 0 ∷ 0 ∷ 0
    ∷ 0 ∷ 0 ∷ 0 ∷ 0 ∷ 0 ∷ 0 ∷ 0 ∷ 0 ∷ []

abbrev pub not_found : Found
not_found = record {
  seen = unseen;
  handshake = record { server_random = no_random; cipher_suite = 0x1301 };
}

-- The cipher suite behind the session id, where the body has one.
abbrev pub suite_behind : Text → ℕ → ℕ
suite_behind (a ∷ b ∷ rest) old = a * 256 + b
suite_behind _ old = old

abbrev pub suite_of : Text → ℕ → ℕ
suite_of [] old = old
suite_of (sid_len ∷ rest) old = suite_behind (drop sid_len rest) old

-- The first ServerHello is read; later ones are not.
abbrev pub captured : Text → Found → ServerHandshake
captured body f =
    if not f.seen.sh && leb 38 (length body)
    then record {
      server_random = take 32 (drop 6 body);
      cipher_suite = suite_of (drop 38 body) f.handshake.cipher_suite;
    }
    else f.handshake

abbrev pub noted : ℕ → Text → Found → Found
noted ct body f = record {
  seen = mark ct f.seen;
  handshake = if ct == 0x16 then captured body f else f.handshake;
}

abbrev pub all_seen : Seen → Bool
all_seen s = s.sh && s.ccs && s.enc

-- A handshake without random bytes is refused.
abbrev pub checked : ServerHandshake → Outcome
checked h = if text_eq h.server_random no_random then failed zero_random else ok h

-- No further header comes: the stream is closed, or the time is up.
abbrev pub without_header : Bool → Found → Outcome
without_header closes f =
    if closes
    then failed incomplete_header
    else if not f.seen.ccs
    then failed timeout_before_ccs
    else if not (all_seen f.seen)
    then failed incomplete_flight
    else checked f.handshake

-- The loop: `bytes` come, then the stream closes or falls silent. What is left of them is returned.
unfoldable pub read_loop : ℕ → Bool → Text → Found → Outcome × Text
unfolding mark
read_loop (suc fuel) closes (ct ∷ v₁ ∷ v₀ ∷ l₁ ∷ l₀ ∷ rest) f =
    let len : ℕ = l₁ * 256 + l₀ in
    let f' = noted ct (take len rest) f in
    let more = read_loop fuel closes (drop len rest) f' in
    if ltb (length rest) len
    then (failed (if closes then incomplete_body else body_timeout), [])
    else if ct == 0x15
    then (failed auth_failure, drop len rest)
    else if all_seen f'.seen
    then (checked f'.handshake, drop len rest)
    else more
read_loop _ closes bytes f = (without_header closes f, [])

unfoldable pub read_server_handshake : Bool → Text → Outcome × Text
unfolding read_loop
read_server_handshake closes bytes = read_loop (length bytes) closes bytes not_found
