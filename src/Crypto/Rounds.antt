-- ===== src/Crypto/Rounds.antt =====
-- crypto/aead.rs: the rounds of `send_data` are bounded, and it succeeds while there are nonces.
use mirage_android.Prelude.{
  ℕ, zero, suc, ◌+◌, ◌-◌, ◌^◌, ◌≤◌, ◌<◌, ◌≡◌, refl, ◌∙◌, true, false, some, [], ◌∷◌, arith, inl,
  inr, Text, length, drop, ◌==◌, Bool-cases, length-drop,
}
use mirage_android.Crypto.Writer.{
  Rng, CryptoWriter, Sent, Plan, nonce_max, prepared, next_plan, send_loop, saturating_inc32,
}
use mirage_android.Crypto.Plans.{IsRng, IsScheme, next_plan-Fits}
use mirage_android.Crypto.Loop.{next_writer, record_of, send_loop_nil, send_loop_next, scheme_kept}

-- What is left to send, with the places of the scheme that are left.
abbrev rounds_left : CryptoWriter → Text → ℕ
rounds_left w text = length text + (length w.scheme - w.records_sent)

rounds_left-next :
    (rng : Rng) (w : CryptoWriter) (b : ℕ) (text : Text)
    → IsRng rng
    → IsScheme w.scheme
    → length w.scheme < 2 ^ 32
    → rounds_left (next_writer w) (drop (next_plan rng w (length (b ∷ text))).taken (b ∷ text))
      < rounds_left w (b ∷ text)
unfolding prepared saturating_inc32
rounds_left-next rng w b text random scheme short =
    let plan : Plan = next_plan rng w (length (b ∷ text)) in
    let (fits, progress) = next_plan-Fits rng w (length text) random scheme in
    let left : length (drop plan.taken (b ∷ text)) ≡ suc (length text) - plan.taken =
      length-drop plan.taken (b ∷ text) in
    elim progress [
      | inl takes ↦ ground (arith, left, fits.there)
      | inr shapes ↦ ground (arith, left, fits.there)
    ]

-- The records sent use one nonce each.
pub send_loop-some :
    (rng : Rng) (fuel : ℕ) (w : CryptoWriter) (text : Text)
    → IsRng rng
    → IsScheme w.scheme
    → length w.scheme < 2 ^ 32
    → rounds_left w text ≤ fuel
    → w.nonce + fuel < 2 ^ 64
    → (sent : Sent) × (send_loop rng fuel w text ≡ some sent)
      × (sent.ok ≡ true)
      × (sent.writer.scheme ≡ w.scheme)
      × (sent.writer.nonce ≤ w.nonce + fuel)
send_loop-some rng fuel w [] random scheme short enough counter = (
  record { writer = w; records = []; ok = true },
  send_loop_nil rng fuel w,
  refl,
  refl,
  omega arith,
)
send_loop-some rng zero w (b ∷ text) random scheme short enough counter = absurd (omega arith)
send_loop-some rng (suc fuel) w (b ∷ text) random scheme short enough counter =
    let rest : Text = drop (next_plan rng w (length (b ∷ text))).taken (b ∷ text) in
    let less = rounds_left-next rng w b text random scheme short in
    let same : (next_writer w).scheme ≡ w.scheme = scheme_kept w in
    let (more, e, ok, kept, count) =
      send_loop-some rng fuel (next_writer w) rest random (rw same scheme) (rw same short)
        (omega arith) (omega arith) in
    let fresh : (w.nonce == nonce_max) ≡ false = ground arith in
    (
      record more { records = record_of rng w (b ∷ text) ∷ more.records },
      send_loop_next rng fuel w b text ∙ rw (fresh, e) refl,
      ok,
      kept ∙ same,
      omega arith,
    )

prepared_keeps : (w : CryptoWriter) → (prepared w).scheme ≡ w.scheme
unfolding prepared
prepared_keeps w = refl

-- With enough fuel the loop ends, well or for want of a nonce.
pub send_loop-ends :
    (rng : Rng) (fuel : ℕ) (w : CryptoWriter) (text : Text)
    → IsRng rng
    → IsScheme w.scheme
    → length w.scheme < 2 ^ 32
    → rounds_left w text ≤ fuel
    → (sent : Sent) × (send_loop rng fuel w text ≡ some sent) × (sent.writer.scheme ≡ w.scheme)
send_loop-ends rng fuel w [] random scheme short enough =
    (record { writer = w; records = []; ok = true }, send_loop_nil rng fuel w, refl)
send_loop-ends rng zero w (b ∷ text) random scheme short enough = absurd (omega arith)
send_loop-ends rng (suc fuel) w (b ∷ text) random scheme short enough =
    let rest : Text = drop (next_plan rng w (length (b ∷ text))).taken (b ∷ text) in
    let less = rounds_left-next rng w b text random scheme short in
    let same : (next_writer w).scheme ≡ w.scheme = scheme_kept w in
    let (more, e, kept) =
      send_loop-ends rng fuel (next_writer w) rest random (rw same scheme) (rw same short)
        (omega arith) in
    elim (Bool-cases (w.nonce == nonce_max)) [
      | inl used ↦ (
        record { writer = prepared w; records = []; ok = false },
        send_loop_next rng fuel w b text ∙ rw used refl,
        prepared_keeps w,
      )
      | inr fresh ↦ (
        record more { records = record_of rng w (b ∷ text) ∷ more.records },
        send_loop_next rng fuel w b text ∙ rw (fresh, e) refl,
        kept ∙ same,
      )
    ]
