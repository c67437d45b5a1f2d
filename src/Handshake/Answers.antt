-- ===== src/Handshake/Answers.antt =====
-- crypto/handshake_cache.rs: every answer of `get_server_hello_pfs` is a complete flight.
use mirage_android.Prelude.{
  ℕ, suc, ◌+◌, ◌-◌, ◌*◌, ◌/◌, ◌%◌, ◌^◌, ◌≤◌, ◌<◌, ◌≡◌, refl, sym, ap, subst, ◌∙◌, true, Option,
  none, some, [], ◌∷◌, ◌++◌, arith, Text, length, drop, ltb-ge, leb, length-append, drop-append,
  length-drop,
}
use mirage_android.Dns.Wire.{be16}
use mirage_android.Hello.Parts.{be24}
use mirage_android.Handshake.Templates.{
  template_is_complete, resized, patch_server_hello, override_random,
}
use mirage_android.Handshake.Complete.{
  IsTemplate, first_record-exchange, drop-drop, first_record_complete, behind_sid-old,
  behind_sid-new,
}

-- The random bytes that replace the flight's, where there are some.
abbrev pub IsOverride : Option Text → Type 0
IsOverride none = Unit
IsOverride (some pk) = length pk ≡ 32

override_complete :
    (pk : Text) (v₁ v₀ l₁ l₀ h₀ h₁ h₂ h₃ w₁ w₀ : ℕ) (body : Text)
    → length pk ≡ 32
    → 38 ≤ l₁ * 256 + l₀
    → template_is_complete (0x16 ∷ v₁ ∷ v₀ ∷ l₁ ∷ l₀ ∷ h₀ ∷ h₁ ∷ h₂ ∷ h₃ ∷ w₁ ∷ w₀ ∷ body) ≡ true
    → template_is_complete
        (override_random (some pk) (0x16 ∷ v₁ ∷ v₀ ∷ l₁ ∷ l₀ ∷ h₀ ∷ h₁ ∷ h₂ ∷ h₃ ∷ w₁ ∷ w₀ ∷ body))
      ≡ true
unfolding override_random
override_complete pk v₁ v₀ l₁ l₀ h₀ h₁ h₂ h₃ w₁ w₀ body size inside complete =
    let head : Text = h₀ ∷ h₁ ∷ h₂ ∷ h₃ ∷ w₁ ∷ w₀ ∷ [] in
    let within = (first_record_complete 0x16 v₁ v₀ l₁ l₀ (head ++ body) complete).0 in
    let flight : Text = v₁ ∷ v₀ ∷ l₁ ∷ l₀ ∷ (head ++ body) in
    let enough : leb 42 (length flight) ≡ true = ground arith in
    let k : ℕ = l₁ * 256 + l₀ - 38 in
    let parts : l₁ * 256 + l₀ ≡ 6 + (32 + k) = omega arith in
    let same : drop (6 + (32 + k)) (head ++ (pk ++ drop 32 body))
        ≡ drop (6 + (32 + k)) (head ++ body) =
      drop-drop 6 (32 + k) (head ++ (pk ++ drop 32 body))
      ∙ ap (λ (n : ℕ). drop (n + k) (pk ++ drop 32 body)) (sym size)
      ∙ drop-drop (length pk) k (pk ++ drop 32 body)
      ∙ ap (drop k) (drop-append pk (drop 32 body))
      ∙ sym (drop-drop 32 k body)
      ∙ sym (drop-drop 6 (32 + k) (head ++ body)) in
    rw enough (
      first_record-exchange 0x16 v₁ v₀ l₁ l₀ l₁ l₀ (head ++ body) (head ++ (pk ++ drop 32 body))
        complete (omega (arith, length-append pk (drop 32 body), length-drop 32 body))
        (rw parts same))

module _ (new_random sid : Text) (random_fits : length new_random ≡ 32)
    (sid_fits : length sid ≤ 255) where
  -- The flight with another session id, written out.
  abbrev patched_rest : ℕ → ℕ → ℕ → ℕ → ℕ → ℕ → ℕ → Text → Text
  patched_rest h₀ h₁ h₂ h₃ w₁ w₀ sid_len more =
      h₀
      ∷ (be24 (resized (2 ^ 24 - 1) (h₁ * 2 ^ 16 + h₂ * 2 ^ 8 + h₃) (length sid) sid_len)
          ++ (w₁ ∷ w₀ ∷ (new_random ++ (length sid % 256 ∷ (sid ++ drop sid_len more)))))

  patch_lem :
      (v₁ v₀ l₁ l₀ h₀ h₁ h₂ h₃ w₁ w₀ sid_len : ℕ) (body more : Text)
      → drop 32 body ≡ sid_len ∷ more
      → sid_len ≤ length more
      → patch_server_hello new_random
          (0x16 ∷ v₁ ∷ v₀ ∷ l₁ ∷ l₀ ∷ h₀ ∷ h₁ ∷ h₂ ∷ h₃ ∷ w₁ ∷ w₀ ∷ body)
          sid
        ≡ 0x16
          ∷ v₁
          ∷ v₀
          ∷ (be16 (resized (2 ^ 16 - 1) (l₁ * 256 + l₀) (length sid) sid_len)
              ++ patched_rest h₀ h₁ h₂ h₃ w₁ w₀ sid_len more)
  unfolding patch_server_hello
  patch_lem v₁ v₀ l₁ l₀ h₀ h₁ h₂ h₃ w₁ w₀ sid_len body more e h =
      rw (e, ltb-ge (length more) sid_len h) refl

  patch_complete :
      (v₁ v₀ l₁ l₀ h₀ h₁ h₂ h₃ w₁ w₀ sid_len : ℕ) (body more : Text)
      → drop 32 body ≡ sid_len ∷ more
      → 39 + sid_len ≤ l₁ * 256 + l₀
      → l₁ * 256 + l₀ + 255 < 2 ^ 16
      → template_is_complete (0x16 ∷ v₁ ∷ v₀ ∷ l₁ ∷ l₀ ∷ h₀ ∷ h₁ ∷ h₂ ∷ h₃ ∷ w₁ ∷ w₀ ∷ body) ≡ true
      → template_is_complete (
          patch_server_hello new_random
            (0x16 ∷ v₁ ∷ v₀ ∷ l₁ ∷ l₀ ∷ h₀ ∷ h₁ ∷ h₂ ∷ h₃ ∷ w₁ ∷ w₀ ∷ body)
            sid)
        ≡ true
  patch_complete v₁ v₀ l₁ l₀ h₀ h₁ h₂ h₃ w₁ w₀ sid_len body more e inside room complete =
      let head : Text = h₀ ∷ h₁ ∷ h₂ ∷ h₃ ∷ w₁ ∷ w₀ ∷ [] in
      let old_len : ℕ = l₁ * 256 + l₀ in
      let j : ℕ = old_len - (39 + sid_len) in
      let within = (first_record_complete 0x16 v₁ v₀ l₁ l₀ (head ++ body) complete).0 in
      let body_size = length-drop 32 body in
      let body_size' : length (drop 32 body) ≡ suc (length more) = ap length e in
      let fits : sid_len ≤ length more = omega arith in
      let new_len : ℕ = resized (2 ^ 16 - 1) old_len (length sid) sid_len in
      let new_len_is : new_len ≡ 39 + length sid + j = ground arith in
      let value : new_len / 256 % 256 * 256 + new_len % 256 ≡ new_len = omega arith in
      let rest : Text = patched_rest h₀ h₁ h₂ h₃ w₁ w₀ sid_len more in
      let back : Text = drop sid_len more in
      let rest_size : length rest ≡ 6 + (32 + suc (length sid + length back)) = omega (
        arith,
        random_fits,
        length-append new_random (length sid % 256 ∷ (sid ++ back)),
        length-append sid back,
      ) in
      let back_size = length-drop sid_len more in
      let hs_len : ℕ = resized (2 ^ 24 - 1) (h₁ * 2 ^ 16 + h₂ * 2 ^ 8 + h₃) (length sid) sid_len in
      let new_head : Text = h₀ ∷ (be24 hs_len ++ (w₁ ∷ w₀ ∷ [])) in
      let old_left : drop old_len (head ++ body) ≡ drop j back =
        ap (λ (n : ℕ). drop n (head ++ body)) (omega arith)
        ∙ behind_sid-old head body more sid_len j refl e in
      let new_left : drop new_len rest ≡ drop j back =
        ap (λ (n : ℕ). drop n rest) new_len_is
        ∙ behind_sid-new new_head new_random sid back (length sid % 256) j refl random_fits in
      ap template_is_complete (patch_lem v₁ v₀ l₁ l₀ h₀ h₁ h₂ h₃ w₁ w₀ sid_len body more e fits)
      ∙ first_record-exchange 0x16 v₁ v₀ l₁ l₀ (new_len / 256 % 256) (new_len % 256) (head ++ body)
          rest complete (omega (arith, value, new_len_is)) (rw value (new_left ∙ sym old_left))

  pub override_fields_complete :
      (override : Option Text) (v₁ v₀ l₁ l₀ h₀ h₁ h₂ h₃ w₁ w₀ : ℕ) (body : Text)
      → IsOverride override
      → 38 ≤ l₁ * 256 + l₀
      → template_is_complete (0x16 ∷ v₁ ∷ v₀ ∷ l₁ ∷ l₀ ∷ h₀ ∷ h₁ ∷ h₂ ∷ h₃ ∷ w₁ ∷ w₀ ∷ body) ≡ true
      → template_is_complete
          (override_random override (0x16 ∷ v₁ ∷ v₀ ∷ l₁ ∷ l₀ ∷ h₀ ∷ h₁ ∷ h₂ ∷ h₃ ∷ w₁ ∷ w₀ ∷ body))
        ≡ true
  unfolding override_random
  override_fields_complete none v₁ v₀ l₁ l₀ h₀ h₁ h₂ h₃ w₁ w₀ body fits inside complete = complete
  override_fields_complete (some pk) v₁ v₀ l₁ l₀ h₀ h₁ h₂ h₃ w₁ w₀ body fits inside complete =
      override_complete pk v₁ v₀ l₁ l₀ h₀ h₁ h₂ h₃ w₁ w₀ body fits inside complete

  adapted_fields_complete :
      (override : Option Text) (v₁ v₀ l₁ l₀ h₀ h₁ h₂ h₃ w₁ w₀ sid_len : ℕ) (body more : Text)
      → IsOverride override
      → drop 32 body ≡ sid_len ∷ more
      → 39 + sid_len ≤ l₁ * 256 + l₀
      → l₁ * 256 + l₀ + 255 < 2 ^ 16
      → template_is_complete (0x16 ∷ v₁ ∷ v₀ ∷ l₁ ∷ l₀ ∷ h₀ ∷ h₁ ∷ h₂ ∷ h₃ ∷ w₁ ∷ w₀ ∷ body) ≡ true
      → template_is_complete (
          override_random override (
            patch_server_hello new_random
              (0x16 ∷ v₁ ∷ v₀ ∷ l₁ ∷ l₀ ∷ h₀ ∷ h₁ ∷ h₂ ∷ h₃ ∷ w₁ ∷ w₀ ∷ body)
              sid))
        ≡ true
  adapted_fields_complete override v₁ v₀ l₁ l₀ h₀ h₁ h₂ h₃ w₁ w₀ sid_len body more fits e inside
        room complete =
      let old_len : ℕ = l₁ * 256 + l₀ in
      let within =
        (first_record_complete 0x16 v₁ v₀ l₁ l₀ (h₀ ∷ h₁ ∷ h₂ ∷ h₃ ∷ w₁ ∷ w₀ ∷ body) complete).0 in
      let body_size' : length (drop 32 body) ≡ suc (length more) = ap length e in
      let fits' : sid_len ≤ length more = omega (arith, length-drop 32 body) in
      let patched = patch_lem v₁ v₀ l₁ l₀ h₀ h₁ h₂ h₃ w₁ w₀ sid_len body more e fits' in
      let new_len : ℕ = resized (2 ^ 16 - 1) old_len (length sid) sid_len in
      let new_len_is : new_len ≡ old_len + length sid - sid_len = ground arith in
      let hs_len : ℕ = resized (2 ^ 24 - 1) (h₁ * 2 ^ 16 + h₂ * 2 ^ 8 + h₃) (length sid) sid_len in
      let still =
        patch_complete v₁ v₀ l₁ l₀ h₀ h₁ h₂ h₃ w₁ w₀ sid_len body more e inside room complete in
      ap (λ (u : Text). template_is_complete (override_random override u)) patched
      ∙ override_fields_complete override v₁ v₀ (new_len / 256 % 256) (new_len % 256) h₀
          (hs_len / 2 ^ 16 % 256) (hs_len / 2 ^ 8 % 256) (hs_len % 256) w₁ w₀
          (new_random ++ (length sid % 256 ∷ (sid ++ drop sid_len more))) fits (omega arith)
          (subst (λ (u : Text). template_is_complete u ≡ true) patched still)

  pub adapted_complete :
      (t : Text) (override : Option Text)
      → IsTemplate t
      → IsOverride override
      → template_is_complete (override_random override (patch_server_hello new_random t sid)) ≡ true
  adapted_complete t override h fits =
      subst
        (λ (u : Text).
          template_is_complete (override_random override (patch_server_hello new_random u sid))
          ≡ true)
        (sym h.shape)
        (adapted_fields_complete override h.version.0 h.version.1 h.lengths.0 h.lengths.1 h.head.0
          h.head.1 h.head.2 h.head.3 h.hello_version.0 h.hello_version.1 h.sid_len h.body h.more
          fits h.session h.inside h.room
          (subst (λ (u : Text). template_is_complete u ≡ true) h.shape h.complete))
