-- ===== src/Dns/RoundTrip.antt =====
-- tun/dns.rs: a query that was built is read back, and so is an answer.
use mirage_android.Prelude.{
  ℕ, zero, suc, ◌+◌, ◌%◌, ◌≤◌, ◌<◌, ◌≡◌, refl, ap, ◌∙◌, false, ◌||◌, some, List, [], ◌∷◌, ◌++◌,
  arith, Text, length, ltb, ltb-ge, ◌==◌, All, Bool-cases, inl, inr, length-append, take-append,
  drop-append,
}
use mathlib.Core.List.{append_assoc}
use mirage_android.Data.Texts.{dot, trim_end_matches, clean_domain}
use mirage_android.Data.Numerals.{split}
use mirage_android.Dns.Wire.{
  encode_labels, build_a_query, parse_labels, latin, join_labels, parse_query,
}

abbrev pub IsAscii : Text → Type 0
IsAscii label = All (λ b. b < 128) label

-- A label of a host name on the wire: 1 to 63 ASCII bytes.
abbrev pub IsLabel : Text → Type 0
IsLabel label = (0 < length label) × (length label ≤ 63) × IsAscii label

latin_ascii : (label : Text) → IsAscii label → latin label ≡ label
unfolding latin
latin_ascii [] h = refl
latin_ascii (b ∷ bs) (h, hs) = ground (arith, latin_ascii bs hs)

parse_labels-label :
    (fuel size : ℕ) (label tail rest : Text) (labels : List Text)
    → 0 < length label
    → length label ≤ 63
    → parse_labels fuel tail ≡ some (labels, size, rest)
    → parse_labels (suc fuel) (length label ∷ (label ++ tail))
      ≡ some (label ∷ labels, 1 + length label + size, rest)
unfolding parse_labels
parse_labels-label fuel size label tail rest labels full short more =
    let some_bytes : (length label == 0) ≡ false = ground arith in
    let enough : (ltb 63 (length label) || ltb (length (label ++ tail)) (length label)) ≡ false =
      ground (arith, length-append label tail) in
    rw (some_bytes, enough, drop-append label tail, more, take-append label tail) refl

parse_labels-encode_labels :
    (fuel : ℕ) (labels : List Text) (rest : Text)
    → All IsLabel labels
    → length (encode_labels labels) < fuel
    → parse_labels fuel (encode_labels labels ++ (0 ∷ rest))
      ≡ some (labels, length (encode_labels labels) + 1, rest)
unfolding parse_labels encode_labels
parse_labels-encode_labels zero labels rest h enough = absurd (omega arith)
parse_labels-encode_labels (suc fuel) [] rest h enough = refl
parse_labels-encode_labels (suc fuel) ([] ∷ labels) rest (h, hs) enough = absurd (omega (arith, h))
parse_labels-encode_labels (suc fuel) ((c ∷ cs) ∷ labels) rest (h, hs) enough =
    let label = c ∷ cs in
    let tail = encode_labels labels ++ (0 ∷ rest) in
    let short : length label % 256 ≡ length label = omega (arith, h) in
    let more =
      parse_labels-encode_labels fuel labels rest hs
        (omega (arith, length-append cs (encode_labels labels))) in
    let all =
      parse_labels-label fuel (length (encode_labels labels) + 1) label tail rest labels h.0 h.1
        more in
    rw (short, append_assoc cs (encode_labels labels) (0 ∷ rest))
      (all
        ∙ ap (λ (n : ℕ). some (label ∷ labels, n, rest))
            (omega (arith, length-append cs (encode_labels labels))))

-- Labels with dots between them.
join : List Text → Text
join [] = []
join (label ∷ []) = label
join (label ∷ next ∷ labels) = label ++ (dot ∷ join (next ∷ labels))

join_labels_ascii : (labels : List Text) → All IsLabel labels → join_labels labels ≡ join labels
unfolding join_labels join
join_labels_ascii [] h = refl
join_labels_ascii (label ∷ []) (h, hs) = latin_ascii label h.2
join_labels_ascii (label ∷ next ∷ labels) (h, hs) =
    rw (latin_ascii label h.2, join_labels_ascii (next ∷ labels) hs) refl

join-cons_head : (x : ℕ) (p : Text) (ps : List Text) → join ((x ∷ p) ∷ ps) ≡ x ∷ join (p ∷ ps)
unfolding join
join-cons_head x p [] = refl
join-cons_head x p (q ∷ ps) = refl

join-split :
    (s : Text) → (p : Text) × (ps : List Text) × (split dot s ≡ p ∷ ps) × (join (p ∷ ps) ≡ s)
unfolding split join
join-split [] = ([], [], refl, refl)
join-split (x ∷ s) =
    let (p, ps, e, back) = join-split s in
    elim (Bool-cases (x == dot)) [
      | inl at_dot ↦ ([], p ∷ ps, rw (at_dot, e) refl, ground (arith, back))
      | inr inside ↦
          (x ∷ p, ps, rw (inside, e) refl, join-cons_head x p ps ∙ ap (λ (t : Text). x ∷ t) back)
    ]

-- A query built for a host name (labels of 1 to 63 ASCII bytes, trailing dots aside) is read back
-- as that name in lower case without trailing dots, with type A, and its question ends where the
-- query ends.
pub parse_query-build_a_query :
    (domain : Text) (id : ℕ)
    → All IsLabel (split dot (trim_end_matches dot domain))
    → parse_query (build_a_query domain id)
      ≡ some (clean_domain domain, 1, length (build_a_query domain id))
unfolding parse_query build_a_query clean_domain
parse_query-build_a_query domain id h =
    let name = trim_end_matches dot domain in
    let labels = split dot name in
    let (p, ps, e, back) = join-split name in
    let tail = 0 ∷ 1 ∷ 0 ∷ 1 ∷ [] in
    let lens = length-append (encode_labels labels) (0 ∷ tail) in
    let read =
      parse_labels-encode_labels (length (build_a_query domain id)) labels tail h
        (omega (arith, lens)) in
    let text : join_labels labels ≡ name = join_labels_ascii labels h ∙ (ap join e ∙ back) in
    let long : ltb (length (build_a_query domain id)) 12 ≡ false =
      ltb-ge (length (build_a_query domain id)) 12 (omega (arith, lens)) in
    rw (long, read, text) (ap (λ (n : ℕ). some (clean_domain domain, 1, n)) (omega (arith, lens)))
