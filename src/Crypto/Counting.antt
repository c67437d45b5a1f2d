-- ===== src/Crypto/Counting.antt =====
-- crypto/aead.rs: the records that a writer seals, and their counters.
use mirage_android.Prelude.{
  ℕ, zero, suc, ◌+◌, ◌^◌, ◌≤◌, ◌<◌, ◌≡◌, refl, sym, ap, subst, ◌∙◌, true, false, Option, some, List,
  [], ◌∷◌, ◌++◌, arith, Text, length, ◌==◌, All, inl, inr, Bool-cases, drop,
}
use mirage_android.Data.Numerals.{◌>>=◌}
use mirage_android.Crypto.Cipher.{Cipher, aes256_gcm, AeadKey, Primitives, format_nonce}
use mirage_android.Crypto.Writer.{
  Rng, CryptoWriter, Sealed, Sent, nonce_max, rekey, prepared, send_loop, send_data,
  send_close_notify, next_plan,
}
use mirage_android.Crypto.Loop.{
  next_writer, record_of, first_record-some, nil_sent, no_fuel, round_of, send_loop_next,
}

pub data Call : Type 0 where
  send : Text → Call
  close : Call
  switch : Cipher → Call

-- The records that a writer seals, whether its calls succeed or not.
unfoldable pub run_calls : Primitives → Rng → CryptoWriter → List Call → Option (List Sealed)
run_calls p rng w [] = some []
run_calls p rng w (send text ∷ cs) = do
  s ← send_data rng w text
  more ← run_calls p rng s.writer cs
  some (s.records ++ more)
run_calls p rng w (close ∷ cs) = run_calls p rng (send_close_notify w).writer cs >>= λ more.
    some ((send_close_notify w).records ++ more)
run_calls p rng w (switch c ∷ cs) = run_calls p rng (rekey p c w) cs

-- Two records differ in the key or in the nonce.
abbrev pub Apart : Sealed → Sealed → Type 0
Apart s t = s.key ≡ t.key → format_nonce s.count ≡ format_nonce t.count → ⊥

abbrev pub Distinct : List Sealed → Type 0
Distinct [] = Unit {0}
Distinct (s ∷ ss) = All (Apart s) ss × Distinct ss

format_nonce_injective :
    (a b : ℕ) → a < 2 ^ 64 → b < 2 ^ 64 → format_nonce a ≡ format_nonce b → a ≡ b
unfolding format_nonce
format_nonce_injective a b ha hb e = ground arith

pub record IsWriter (w : CryptoWriter) : Type 0 where
  pub of_kind : w.cipher.kind ≡ w.cipher_kind
  pub counts : w.nonce ≤ nonce_max

-- A record that may come after a writer's state: with its cipher it has a later nonce, and the
-- first cipher does not come back.
pub record After (kind : Cipher) (nonce : ℕ) (t : Sealed) : Type 0 where
  pub later : t.key.kind ≡ kind → nonce ≤ t.count
  pub no_return : kind ≡ aes256_gcm → t.key.kind ≡ aes256_gcm
  pub within : t.count < nonce_max

-- The records of one call count up from the writer's nonce.
abbrev Counted : AeadKey → ℕ → List Sealed → Type 0
Counted k n [] = Unit {0}
Counted k n (s ∷ ss) = (s.key ≡ k) × (s.count ≡ n) × Counted k (n + 1) ss

-- What a call keeps, and how far it counts.
pub record Counts (w : CryptoWriter) (sent : Sent) : Type 0 where
  pub same_key : sent.writer.cipher ≡ w.cipher
  pub same_kind : sent.writer.cipher_kind ≡ w.cipher_kind
  pub counted : Counted w.cipher w.nonce sent.records
  pub reached : sent.writer.nonce ≡ w.nonce + length sent.records
  pub bounded : sent.writer.nonce ≤ nonce_max

unchanged-Counts :
    (w : CryptoWriter)
    → w.nonce ≤ nonce_max
    → Counts w (record { writer = prepared w; records = []; ok = false })
unfolding prepared
unchanged-Counts w h = record {
  same_key = refl;
  same_kind = refl;
  counted = tt;
  reached = omega arith;
  bounded = h;
}

next-Counts :
    (w : CryptoWriter) (s : Sealed) (more : Sent)
    → s.key ≡ w.cipher
    → s.count ≡ w.nonce
    → Counts (next_writer w) more
    → Counts w (record more { records = s ∷ more.records })
unfolding prepared
next-Counts w s more key count c = record {
  same_key = c.same_key;
  same_kind = c.same_kind;
  counted = (key, count, c.counted);
  reached = omega (arith, c.reached);
  bounded = c.bounded;
}

next_within :
    (w : CryptoWriter)
    → w.nonce ≤ nonce_max
    → (w.nonce == nonce_max) ≡ false
    → (next_writer w).nonce ≤ nonce_max
unfolding prepared
next_within w h fresh = ground arith

used_sent :
    (rng : Rng) (fuel : ℕ) (w : CryptoWriter) (b : ℕ) (text : Text) (sent : Sent)
    → send_loop rng (suc fuel) w (b ∷ text) ≡ some sent
    → (w.nonce == nonce_max) ≡ true
    → record { writer = prepared w; records = []; ok = false } ≡ sent
used_sent rng fuel w b text sent e used = ground (arith, send_loop_next rng fuel w b text)

pub send_loop-Counts :
    (rng : Rng) (fuel : ℕ) (w : CryptoWriter) (text : Text) (sent : Sent)
    → w.nonce ≤ nonce_max
    → send_loop rng fuel w text ≡ some sent
    → Counts w sent
send_loop-Counts rng fuel w [] sent h e =
    subst (Counts w) (nil_sent rng fuel w sent e) (record {
      same_key = refl;
      same_kind = refl;
      counted = tt;
      reached = omega arith;
      bounded = h;
    })
send_loop-Counts rng zero w (b ∷ text) sent h e = absurd (no_fuel rng w b text sent e)
send_loop-Counts rng (suc fuel) w (b ∷ text) sent h e = elim (Bool-cases (w.nonce == nonce_max)) [
  | inl used ↦ subst (Counts w) (used_sent rng fuel w b text sent e used) (unchanged-Counts w h)
  | inr fresh ↦
      let e' : round_of rng fuel w (b ∷ text) ≡ some sent =
        ground (arith, send_loop_next rng fuel w b text) in
      let (more, e'', same) = first_record-some (record_of rng w (b ∷ text)) _ sent e' in
      subst (Counts w) same (
        next-Counts w (record_of rng w (b ∷ text)) more refl refl (
          send_loop-Counts rng fuel (next_writer w)
            (drop (next_plan rng w (length (b ∷ text))).taken (b ∷ text)) more
            (next_within w h fresh) e''))
]

pub All-imp {ℓ κ κ'} :
    {A : Type ℓ} {P : A → Type κ} {Q : A → Type κ'}
    → ((a : A) → P a → Q a)
    → (xs : List A) → All P xs
    → All Q xs
All-imp f [] h = tt
All-imp f (x ∷ xs) h = (f x h.0, All-imp f xs h.1)

After-earlier : (kind : Cipher) (n m : ℕ) → n ≤ m → (t : Sealed) → After kind m t → After kind n t
After-earlier kind n m h t a = ground (arith)

pub Counted-After :
    (kind : Cipher) (k : AeadKey) (n : ℕ) (rs more : List Sealed)
    → k.kind ≡ kind
    → n + length rs ≤ nonce_max
    → Counted k n rs
    → All (After kind (n + length rs)) more
    → All (After kind n) (rs ++ more)
Counted-After kind k n [] more same bound c h =
    let zero_end : n + 0 ≡ n = omega arith in subst (λ m. All (After kind m) more) zero_end h
Counted-After kind k n (s ∷ ss) more same bound (key, count, c) h =
    let moved : n + suc (length ss) ≡ n + 1 + length ss = omega arith in
    let rest = Counted-After kind k (n + 1) ss more same (omega arith) c (rw (sym moved) h) in
    (ground arith, All-imp (After-earlier kind n (n + 1) (omega arith)) (ss ++ more) rest)

After-Apart :
    (kind : Cipher) (s t : Sealed)
    → s.key.kind ≡ kind
    → s.count < nonce_max
    → After kind (s.count + 1) t
    → Apart s t
After-Apart kind s t same bound a e e' =
    let counts : s.count ≡ t.count =
      format_nonce_injective s.count t.count (omega arith) (omega (arith, a.within)) e' in
    let later = a.later (sym (ap (λ k. k.kind) e) ∙ same) in omega (arith, counts, later)

pub Counted-Distinct :
    (kind : Cipher) (k : AeadKey) (n : ℕ) (rs more : List Sealed)
    → k.kind ≡ kind
    → n + length rs ≤ nonce_max
    → Counted k n rs
    → All (After kind (n + length rs)) more
    → Distinct more
    → Distinct (rs ++ more)
Counted-Distinct kind k n [] more same bound c h d = d
Counted-Distinct kind k n (s ∷ ss) more same bound (key, count, c) h d =
    let moved : n + suc (length ss) ≡ n + 1 + length ss = omega arith in
    let h' : All (After kind (n + 1 + length ss)) more = rw (sym moved) h in
    let rest = Counted-After kind k (n + 1) ss more same (omega arith) c h' in
    (
      All-imp (λ t a. After-Apart kind s t (rw key same) (omega arith) (rw count a)) (ss ++ more)
          rest,
      Counted-Distinct kind k (n + 1) ss more same (omega arith) c h' d,
    )
