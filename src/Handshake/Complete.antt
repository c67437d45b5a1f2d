-- ===== src/Handshake/Complete.antt =====
-- crypto/handshake_cache.rs: every answer is a complete handshake.
use mirage_android.Prelude.{
  ℕ, zero, suc, ◌+◌, ◌*◌, ◌/◌, ◌%◌, ◌^◌, ◌≤◌, ◌<◌, ◌≡◌, refl, sym, ap, ◌∙◌, true, List, [], ◌∷◌,
  ◌++◌, arith, Text, length, drop, ltb-ge, length-append, drop-append, length-drop,
}
use mathlib.Core.List.{append-nil}
use mirage_android.Dns.Wire.{be16}
use mirage_android.Hello.Parts.{be24}
use mirage_android.Handshake.Templates.{
  Seen, mark, record_loop, template_is_complete, unseen, tls_record, Filler, fallback_server_hello,
  fallback_body, fallback_exts, pick_cipher,
}

-- A record at the front is passed over, and its type marked.
pub record_loop-record :
    (fuel ct v₁ v₀ a b : ℕ) (rest : Text) (s : Seen)
    → a * 256 + b ≤ length rest
    → record_loop (suc fuel) (ct ∷ v₁ ∷ v₀ ∷ a ∷ b ∷ rest) s
      ≡ record_loop fuel (drop (a * 256 + b) rest) (mark ct s)
unfolding record_loop
record_loop-record fuel ct v₁ v₀ a b rest s h = rw (ltb-ge (length rest) (a * 256 + b) h) refl

record_loop-tls_record :
    (fuel ct : ℕ) (body rest : Text) (s : Seen)
    → length body < 2 ^ 16
    → record_loop (suc fuel) (tls_record ct body ++ rest) s ≡ record_loop fuel rest (mark ct s)
record_loop-tls_record fuel ct body rest s h =
    let size : length body / 256 % 256 * 256 + length body % 256 ≡ length body = omega arith in
    record_loop-record fuel ct 0x03 0x03 (length body / 256 % 256) (length body % 256)
      (body ++ rest) s (omega (arith, length-append body rest))
    ∙ rw (size, drop-append body rest) refl

-- More fuel than there are bytes makes no difference.
pub record_loop_enough :
    (f g : ℕ) (t : Text) (s : Seen)
    → length t ≤ f
    → length t ≤ g
    → record_loop f t s ≡ record_loop g t s
unfolding record_loop
record_loop_enough zero zero t s hf hg = refl
record_loop_enough zero (suc g) [] s hf hg = refl
record_loop_enough zero (suc g) (x ∷ xs) s hf hg = absurd (omega arith)
record_loop_enough (suc f) zero [] s hf hg = refl
record_loop_enough (suc f) zero (x ∷ xs) s hf hg = absurd (omega arith)
record_loop_enough (suc f) (suc g) [] s hf hg = refl
record_loop_enough (suc f) (suc g) (a ∷ []) s hf hg = refl
record_loop_enough (suc f) (suc g) (a ∷ b ∷ []) s hf hg = refl
record_loop_enough (suc f) (suc g) (a ∷ b ∷ c ∷ []) s hf hg = refl
record_loop_enough (suc f) (suc g) (a ∷ b ∷ c ∷ d ∷ []) s hf hg = refl
record_loop_enough (suc f) (suc g) (ct ∷ b ∷ c ∷ d ∷ e ∷ rest) s hf hg =
    let less = length-drop (d * 256 + e) rest in
    rw (record_loop_enough f g (drop (d * 256 + e) rest) (mark ct s) (omega arith) (omega arith))
      refl

pub complete_by :
    (fuel : ℕ) (t : Text) → length t ≤ fuel → template_is_complete t ≡ record_loop fuel t unseen
unfolding template_is_complete
complete_by fuel t h = record_loop_enough (length t) fuel t unseen (omega arith) h

all_seen : (fuel : ℕ) → record_loop fuel [] (mark 0x17 (mark 0x14 (mark 0x16 unseen))) ≡ true
unfolding record_loop
all_seen zero = refl
all_seen (suc fuel) = refl

three_records_complete :
    (a b c : Text)
    → length a < 2 ^ 16
    → length b < 2 ^ 16
    → length c < 2 ^ 16
    → template_is_complete (tls_record 0x16 a ++ (tls_record 0x14 b ++ tls_record 0x17 c)) ≡ true
three_records_complete a b c ha hb hc =
    let t : Text = tls_record 0x16 a ++ (tls_record 0x14 b ++ tls_record 0x17 c) in
    let n : ℕ = length t in
    complete_by (suc (suc (suc n))) t (omega arith)
    ∙ record_loop-tls_record (suc (suc n)) 0x16 a (tls_record 0x14 b ++ tls_record 0x17 c) unseen ha
    ∙ record_loop-tls_record (suc n) 0x14 b (tls_record 0x17 c) (mark 0x16 unseen) hb
    ∙ ap (λ (r : Text). record_loop (suc n) r (mark 0x14 (mark 0x16 unseen)))
        (sym (append-nil (tls_record 0x17 c)))
    ∙ record_loop-tls_record n 0x17 c [] (mark 0x14 (mark 0x16 unseen)) hc
    ∙ all_seen n

pub fallback_complete :
    (r : Filler) (client_hello sid : Text)
    → length r.random ≡ 32
    → length r.key_share ≡ 32
    → length sid ≤ 255
    → length r.flight < 2 ^ 16
    → template_is_complete (fallback_server_hello r client_hello sid) ≡ true
unfolding fallback_server_hello
fallback_complete r client_hello sid random share sid_fits flight_fits =
    let back : Text =
      be16 (pick_cipher client_hello)
      ++ (0x00 ∷ (be16 (length (fallback_exts r)) ++ fallback_exts r)) in
    let body : Text = fallback_body r client_hello sid in
    three_records_complete (0x02 ∷ (be24 (length body) ++ body)) (0x01 ∷ []) r.flight
      (omega
        (arith, length-append r.random (length sid % 256 ∷ (sid ++ back)), length-append sid back))
      (omega arith) flight_fits

drop_nil {ℓ} : {A : Type ℓ} (n : ℕ) → drop {A = A} n [] ≡ []
drop_nil zero = refl
drop_nil (suc n) = refl

pub drop-drop {ℓ} : {A : Type ℓ} (a b : ℕ) (xs : List A) → drop (a + b) xs ≡ drop b (drop a xs)
drop-drop zero b xs = ap (λ (n : ℕ). drop n xs) (omega arith)
drop-drop (suc a) b [] =
    let step : suc a + b ≡ suc (a + b) = omega arith in rw step (sym (drop_nil b))
drop-drop (suc a) b (x ∷ xs) =
    let step : suc a + b ≡ suc (a + b) = omega arith in rw step (drop-drop a b xs)

-- A ServerHello flight that is complete, and whose first record holds the session id.
pub record IsTemplate (t : Text) : Type 0 where
  pub version : ℕ × ℕ
  pub lengths : ℕ × ℕ
  pub head : ℕ × ℕ × ℕ × ℕ
  pub hello_version : ℕ × ℕ
  pub body : Text
  pub sid_len : ℕ
  pub more : Text
  pub shape :
      t
      ≡ 0x16 ∷ version.0 ∷ version.1 ∷ lengths.0 ∷ lengths.1 ∷ head.0 ∷ head.1 ∷ head.2 ∷ head.3
        ∷ hello_version.0 ∷ hello_version.1 ∷ body
  pub session : drop 32 body ≡ sid_len ∷ more
  pub inside : 39 + sid_len ≤ lengths.0 * 256 + lengths.1
  pub room : lengths.0 * 256 + lengths.1 + 255 < 2 ^ 16
  pub complete : template_is_complete t ≡ true

first_step :
    (fuel ct v₁ v₀ a b : ℕ) (rest : Text)
    → record_loop (suc fuel) (ct ∷ v₁ ∷ v₀ ∷ a ∷ b ∷ rest) unseen ≡ true
    → (a * 256 + b ≤ length rest)
      × (record_loop fuel (drop (a * 256 + b) rest) (mark ct unseen) ≡ true)
unfolding record_loop
first_step fuel ct v₁ v₀ a b rest e = ground arith

-- What a complete flight says of its first record.
pub first_record_complete :
    (ct v₁ v₀ a b : ℕ) (rest : Text)
    → template_is_complete (ct ∷ v₁ ∷ v₀ ∷ a ∷ b ∷ rest) ≡ true
    → (a * 256 + b ≤ length rest)
      × (record_loop (length rest + 5) (drop (a * 256 + b) rest) (mark ct unseen) ≡ true)
first_record_complete ct v₁ v₀ a b rest e =
    let t : Text = ct ∷ v₁ ∷ v₀ ∷ a ∷ b ∷ rest in
    let e' = sym (complete_by (suc (length rest + 5)) t (omega arith)) ∙ e in
    first_step (length rest + 5) ct v₁ v₀ a b rest e'

-- A flight stays complete when its first record is exchanged, and what is behind it is kept.
pub first_record-exchange :
    (ct v₁ v₀ a b c d : ℕ) (rest rest' : Text)
    → template_is_complete (ct ∷ v₁ ∷ v₀ ∷ a ∷ b ∷ rest) ≡ true
    → c * 256 + d ≤ length rest'
    → drop (c * 256 + d) rest' ≡ drop (a * 256 + b) rest
    → template_is_complete (ct ∷ v₁ ∷ v₀ ∷ c ∷ d ∷ rest') ≡ true
first_record-exchange ct v₁ v₀ a b c d rest rest' complete within' same =
    let (within, seen) = first_record_complete ct v₁ v₀ a b rest complete in
    let t' : Text = ct ∷ v₁ ∷ v₀ ∷ c ∷ d ∷ rest' in
    let big : ℕ = length t' + (length rest + 5) in
    complete_by (suc big) t' (omega arith)
    ∙ record_loop-record big ct v₁ v₀ c d rest' unseen within'
    ∙ ap (λ (r : Text). record_loop big r (mark ct unseen)) same
    ∙ record_loop_enough big (length rest + 5) (drop (a * 256 + b) rest) (mark ct unseen)
        (omega (arith, length-drop (a * 256 + b) rest))
        (omega (arith, length-drop (a * 256 + b) rest))
    ∙ seen

-- The place behind the session id, from the record's start.
pub behind_sid-old :
    (h : Text) (body more : Text) (sid_len j : ℕ)
    → length h ≡ 6
    → drop 32 body ≡ sid_len ∷ more
    → drop (39 + sid_len + j) (h ++ body) ≡ drop j (drop sid_len more)
behind_sid-old h body more sid_len j six e =
    let parts : 39 + sid_len + j ≡ length h + (32 + (1 + sid_len + j)) = omega (arith, six) in
    rw parts (
      drop-drop (length h) (32 + (1 + sid_len + j)) (h ++ body)
      ∙ ap (drop (32 + (1 + sid_len + j))) (drop-append h body)
      ∙ drop-drop 32 (1 + sid_len + j) body
      ∙ ap (drop (1 + sid_len + j)) e
      ∙ ap (λ (n : ℕ). drop n (sid_len ∷ more)) (omega arith)
      ∙ drop-drop (suc sid_len) j (sid_len ∷ more))

pub behind_sid-new :
    (h new_random sid rest : Text) (x j : ℕ)
    → length h ≡ 6
    → length new_random ≡ 32
    → drop (39 + length sid + j) (h ++ (new_random ++ (x ∷ (sid ++ rest)))) ≡ drop j rest
behind_sid-new h new_random sid rest x j six random =
    let parts : 39 + length sid + j ≡ length h + (length new_random + (suc (length sid) + j)) =
      omega (arith, six, random) in
    rw parts (
      drop-drop (length h) (length new_random + (suc (length sid) + j))
        (h ++ (new_random ++ (x ∷ (sid ++ rest))))
      ∙ ap (drop (length new_random + (suc (length sid) + j)))
          (drop-append h (new_random ++ (x ∷ (sid ++ rest))))
      ∙ drop-drop (length new_random) (suc (length sid) + j) (new_random ++ (x ∷ (sid ++ rest)))
      ∙ ap (drop (suc (length sid) + j)) (drop-append new_random (x ∷ (sid ++ rest)))
      ∙ drop-drop (suc (length sid)) j (x ∷ (sid ++ rest))
      ∙ ap (drop j) (drop-append sid rest))
