-- ===== src/Crypto/Loop.antt =====
-- crypto/aead.rs: the rounds of `send_data` as equations.
use mirage_android.Prelude.{
  ℕ, zero, suc, ◌+◌, ◌≡◌, refl, true, false, Option, none, some, [], ◌∷◌, arith, if◌then◌else◌,
  Text, length, take, drop, ◌==◌,
}
use mirage_android.Crypto.Writer.{
  Rng, CryptoWriter, Sealed, Sent, nonce_max, inner_text, prepared, seal_next, first_record,
  next_plan, send_loop,
}

abbrev pub next_writer : CryptoWriter → CryptoWriter
next_writer w = record (prepared w) { nonce = w.nonce + 1 }

abbrev pub record_of : Rng → CryptoWriter → Text → Sealed
record_of rng w text =
    let plan = next_plan rng w (length text) in
    seal_next w (inner_text (take plan.taken text) 0x17 plan.target)

pub first_record-some :
    (s : Sealed) (o : Option Sent) (sent : Sent)
    → first_record s o ≡ some sent
    → (more : Sent) × (o ≡ some more) × (record more { records = s ∷ more.records } ≡ sent)
first_record-some s none sent e = cc
first_record-some s (some more) sent e = (more, refl, cc)

pub nil_sent :
    (rng : Rng) (fuel : ℕ) (w : CryptoWriter) (sent : Sent)
    → send_loop rng fuel w [] ≡ some sent
    → record { writer = w; records = []; ok = true } ≡ sent
unfolding send_loop
nil_sent rng zero w sent e = cc
nil_sent rng (suc fuel) w sent e = cc

pub no_fuel :
    (rng : Rng) (w : CryptoWriter) (b : ℕ) (text : Text) (sent : Sent)
    → send_loop rng zero w (b ∷ text) ≡ some sent
    → ⊥
unfolding send_loop
no_fuel rng w b text sent e = cc

pub scheme_kept : (w : CryptoWriter) → (next_writer w).scheme ≡ w.scheme
unfolding prepared
scheme_kept w = refl

-- A round that the counter does not forbid.
abbrev pub round_of : Rng → ℕ → CryptoWriter → Text → Option Sent
round_of rng fuel w text =
    first_record (record_of rng w text)
      (send_loop rng fuel (next_writer w) (drop (next_plan rng w (length text)).taken text))

pub send_loop_nil :
    (rng : Rng) (fuel : ℕ) (w : CryptoWriter)
    → send_loop rng fuel w [] ≡ some (record { writer = w; records = []; ok = true })
unfolding send_loop
send_loop_nil rng zero w = refl
send_loop_nil rng (suc fuel) w = refl

pub send_loop_next :
    (rng : Rng) (fuel : ℕ) (w : CryptoWriter) (b : ℕ) (text : Text)
    → send_loop rng (suc fuel) w (b ∷ text) ≡ (
        if w.nonce == nonce_max
        then some (record { writer = prepared w; records = []; ok = false })
        else round_of rng fuel w (b ∷ text))
unfolding send_loop prepared
send_loop_next rng fuel w b text = refl

-- Where a round ends well, another record was sent.
pub round-some :
    (rng : Rng) (fuel : ℕ) (w : CryptoWriter) (b : ℕ) (text : Text) (sent : Sent)
    → send_loop rng (suc fuel) w (b ∷ text) ≡ some sent
    → sent.ok ≡ true
    → ((w.nonce == nonce_max) ≡ false) × (round_of rng fuel w (b ∷ text) ≡ some sent)
round-some rng fuel w b text sent e ok = ground (arith, send_loop_next rng fuel w b text)
