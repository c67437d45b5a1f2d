-- ===== src/Crypto/Nonces.antt =====
-- crypto/aead.rs: no nonce is used twice with one key.
use mirage_android.Prelude.{
  ℕ, ◌+◌, ◌^◌, ◌≤◌, ◌<◌, ◌≡◌, refl, sym, ap, subst, ◌∙◌, Bool, some, List, [], ◌∷◌, ◌++◌, arith,
  if◌then◌else◌, Text, length, ◌==◌, ◌||◌, All, ◌⊎◌, inl, inr, Bool-cases,
}
use mirage_android.Data.Numerals.{>>=-some}
use mathlib.Core.Option.{some_inj}
use mirage_android.Crypto.Cipher.{
  Cipher, chacha20_poly1305, aes256_gcm, same_cipher, Primitives, expand_key, write_info,
}
use mirage_android.Crypto.Writer.{
  Rng, CryptoWriter, Sealed, Sent, nonce_max, new_writer, rekey, send_data, send_close_notify,
}
use mirage_android.Crypto.Plans.{IsRng, IsScheme}
use mirage_android.Crypto.Rounds.{send_loop-ends}
use mirage_android.Crypto.Counting.{
  Call, send, close, switch, run_calls, Distinct, IsWriter, After, Counts, send_loop-Counts,
  All-imp, Counted-After, Counted-Distinct,
}

rekey_cases :
    (p : Primitives) (c : Cipher) (w : CryptoWriter)
    → (rekey p c w ≡ w)
      ⊎ (((rekey p c w).cipher_kind ≡ aes256_gcm) × (w.cipher_kind ≡ chacha20_poly1305))
unfolding rekey
rekey_cases p c w = by_kinds c w.cipher_kind
  where
    by_kinds :
        (c kind : Cipher)
        → ((if same_cipher c kind || same_cipher c chacha20_poly1305 then w else record w {
          cipher = expand_key p w.master (write_info w.is_initiator) c;
          cipher_kind = c;
          nonce = 0;
        })
            ≡ w)
          ⊎ (((if same_cipher c kind || same_cipher c chacha20_poly1305 then w else record w {
            cipher = expand_key p w.master (write_info w.is_initiator) c;
            cipher_kind = c;
            nonce = 0;
          }).cipher_kind
                ≡ aes256_gcm)
              × (kind ≡ chacha20_poly1305))
    by_kinds chacha20_poly1305 chacha20_poly1305 = inl refl
    by_kinds chacha20_poly1305 aes256_gcm = inl refl
    by_kinds aes256_gcm chacha20_poly1305 = inr (refl, refl)
    by_kinds aes256_gcm aes256_gcm = inl refl

rekey-IsWriter :
    (p : Primitives) (c : Cipher) (w : CryptoWriter) → IsWriter w → IsWriter (rekey p c w)
unfolding rekey expand_key
rekey-IsWriter p c w v = ground arith

rekey-After :
    (p : Primitives) (c : Cipher) (w : CryptoWriter) (t : Sealed)
    → After (rekey p c w).cipher_kind (rekey p c w).nonce t
    → After w.cipher_kind w.nonce t
rekey-After p c w t a = elim (rekey_cases p c w) [
  | inl same ↦ subst (λ v. After v.cipher_kind v.nonce t) same a
  | inr (to_aes, was_chacha) ↦
      let now_aes = a.no_return to_aes in
      record { later = λ e. cc; no_return = λ e. cc; within = a.within }
]

-- What a writer's records are.
abbrev Safe : CryptoWriter → List Sealed → Type 0
Safe w rs = All (After w.cipher_kind w.nonce) rs × Distinct rs

Counts-Safe :
    (w : CryptoWriter) (sent : Sent) (more : List Sealed)
    → IsWriter w
    → Counts w sent
    → Safe sent.writer more
    → Safe w (sent.records ++ more)
Counts-Safe w sent more v c (after, distinct) =
    let after' : All (After w.cipher_kind (w.nonce + length sent.records)) more =
      rw (sym c.same_kind, sym c.reached) after in
    let bound : w.nonce + length sent.records ≤ nonce_max = omega (arith, c.reached, c.bounded) in
    (
      Counted-After w.cipher_kind w.cipher w.nonce sent.records more v.of_kind bound c.counted
          after',
      Counted-Distinct w.cipher_kind w.cipher w.nonce sent.records more v.of_kind bound c.counted
          after' distinct,
    )

Counts-IsWriter :
    (w : CryptoWriter) (sent : Sent) → IsWriter w → Counts w sent → IsWriter sent.writer
Counts-IsWriter w sent v c = record {
  of_kind = ap (λ k. k.kind) c.same_key ∙ v.of_kind ∙ sym c.same_kind;
  counts = c.bounded;
}

close-Counts : (w : CryptoWriter) → w.nonce ≤ nonce_max → Counts w (send_close_notify w)
unfolding send_close_notify
close-Counts w h = elim (Bool-cases (w.nonce == nonce_max)) [
  | inl used ↦ rw used (record {
    same_key = refl;
    same_kind = refl;
    counted = tt;
    reached = omega arith;
    bounded = h;
  })
  | inr fresh ↦ rw fresh (record {
    same_key = refl;
    same_kind = refl;
    counted = (refl, refl, tt);
    reached = omega arith;
    bounded = ground arith;
  })
]

run_calls-Safe :
    (p : Primitives) (rng : Rng) (w : CryptoWriter) (cs : List Call) (rs : List Sealed)
    → IsWriter w
    → run_calls p rng w cs ≡ some rs
    → Safe w rs
unfolding run_calls send_data
run_calls-Safe p rng w [] rs v e = subst (Safe w) (some_inj.0 e) (tt, tt)
run_calls-Safe p rng w (send text ∷ cs) rs v e =
    let (sent, e₁, e₂) = >>=-some (send_data rng w text) _ e in
    let (more, e₃, e₄) = >>=-some (run_calls p rng sent.writer cs) _ e₂ in
    let c : Counts w sent =
      send_loop-Counts rng (length text + length w.scheme) w text sent v.counts e₁ in
    subst (Safe w) (some_inj.0 e₄) (
      Counts-Safe w sent more v c
        (run_calls-Safe p rng sent.writer cs more (Counts-IsWriter w sent v c) e₃))
run_calls-Safe p rng w (close ∷ cs) rs v e =
    let sent : Sent = send_close_notify w in
    let (more, e₃, e₄) = >>=-some (run_calls p rng sent.writer cs) _ e in
    let c : Counts w sent = close-Counts w v.counts in
    subst (Safe w) (some_inj.0 e₄) (
      Counts-Safe w sent more v c
        (run_calls-Safe p rng sent.writer cs more (Counts-IsWriter w sent v c) e₃))
run_calls-Safe p rng w (switch c ∷ cs) rs v e =
    let (after, distinct) = run_calls-Safe p rng (rekey p c w) cs rs (rekey-IsWriter p c w v) e in
    (All-imp (rekey-After p c w) rs after, distinct)

close_keeps : (w : CryptoWriter) → (send_close_notify w).writer.scheme ≡ w.scheme
unfolding send_close_notify
close_keeps w = ground arith

rekey_keeps : (p : Primitives) (c : Cipher) (w : CryptoWriter) → (rekey p c w).scheme ≡ w.scheme
unfolding rekey
rekey_keeps p c w = ground arith

run_calls-some :
    (p : Primitives) (rng : Rng) (w : CryptoWriter) (cs : List Call)
    → IsRng rng
    → IsScheme w.scheme
    → length w.scheme < 2 ^ 32
    → (rs : List Sealed) × (run_calls p rng w cs ≡ some rs)
unfolding run_calls send_data
run_calls-some p rng w [] random scheme short = ([], refl)
run_calls-some p rng w (send text ∷ cs) random scheme short =
    let (sent, e, kept) =
      send_loop-ends rng (length text + length w.scheme) w text random scheme short (omega arith) in
    let (more, e') = run_calls-some p rng sent.writer cs random (rw kept scheme) (rw kept short) in
    (sent.records ++ more, rw (e, e') refl)
run_calls-some p rng w (close ∷ cs) random scheme short =
    let kept = close_keeps w in
    let (more, e') =
      run_calls-some p rng (send_close_notify w).writer cs random (rw kept scheme)
        (rw kept short) in
    ((send_close_notify w).records ++ more, rw e' refl)
run_calls-some p rng w (switch c ∷ cs) random scheme short =
    let kept = rekey_keeps p c w in
    run_calls-some p rng (rekey p c w) cs random (rw kept scheme) (rw kept short)

-- For random numbers between the bounds asked for and a padding scheme of fewer than 2^32 ranges
-- up to 16385: whatever calls of send_data, send_close_notify and rekey a new writer gets, the
-- calls end, and no two of the records that it seals have both the same key and the same nonce.
pub run_calls-Distinct :
    (p : Primitives) (rng : Rng) (master : Text) (is_initiator padding : Bool)
    (scheme : List (ℕ × ℕ)) (cs : List Call)
    → IsRng rng
    → IsScheme scheme
    → length scheme < 2 ^ 32
    → (rs : List Sealed) × (run_calls p rng (new_writer p master is_initiator padding scheme) cs
        ≡ some rs)
      × Distinct rs
unfolding new_writer expand_key
run_calls-Distinct p rng master is_initiator padding scheme cs random fits short =
    let w : CryptoWriter = new_writer p master is_initiator padding scheme in
    let (rs, e) = run_calls-some p rng w cs random fits short in
    (rs, e, (run_calls-Safe p rng w cs rs (record { of_kind = refl; counts = omega arith }) e).1)
