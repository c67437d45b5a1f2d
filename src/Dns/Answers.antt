-- ===== src/Dns/Answers.antt =====
-- tun/dns.rs: an answer that was built for a query is read back.
use mirage_android.Prelude.{
  ℕ, suc, ◌+◌, ◌-◌, ◌≤◌, ◌≡◌, refl, false, ◌||◌, none, some, [], ◌∷◌, ◌++◌, arith, Text, length,
  take, drop, ltb, ltb-ge, bit_and, bit_or, drop-append, length-drop, length-take,
}
use mirage_android.Dns.Wire.{
  skip_name_loop, skip_dns_name, answer_loop, parse_a_answer, answer_record, build_response,
}

-- The head of an answer with one question.
abbrev head_bytes : ℕ → ℕ → ℕ → ℕ → Text
head_bytes a b flags count = a ∷ b ∷ 0x81 ∷ flags ∷ 0 ∷ 1 ∷ 0 ∷ count ∷ 0 ∷ 0 ∷ 0 ∷ 0 ∷ []

answer_loop-record :
    (ip : Text) → length ip ≡ 4 → answer_loop 1 (answer_record 1 (some ip)) ≡ some ip
unfolding answer_loop skip_dns_name skip_name_loop
answer_loop-record [] h = absurd (omega arith)
answer_loop-record (a ∷ []) h = absurd (omega arith)
answer_loop-record (a ∷ b ∷ []) h = absurd (omega arith)
answer_loop-record (a ∷ b ∷ c ∷ []) h = absurd (omega arith)
answer_loop-record (a ∷ b ∷ c ∷ d ∷ []) h = refl
answer_loop-record (a ∷ b ∷ c ∷ d ∷ e ∷ ip) h = absurd (omega arith)

parse_head :
    (a b flags qname_len : ℕ) (question ip : Text)
    → length ip ≡ 4
    → qname_len + 4 ≡ length question
    → parse_a_answer (head_bytes a b flags 1 ++ question ++ answer_record 1 (some ip)) qname_len
      ≡ some ip
unfolding parse_a_answer
parse_head a b flags qname_len question ip h at =
    let place : 12 + qname_len + 4
        ≡ suc (suc (suc (suc (suc (suc (suc (suc (suc (suc (suc (suc (length question)))))))))))) =
      omega (arith, at) in
    let long : ltb (length (head_bytes a b flags 1 ++ question ++ answer_record 1 (some ip))) 12
        ≡ false =
      ltb-ge (length (head_bytes a b flags 1 ++ question ++ answer_record 1 (some ip))) 12
        (omega arith) in
    rw (long, place, drop-append question (answer_record 1 (some ip))) (answer_loop-record ip h)

parse_empty_head :
    (a b flags qname_len : ℕ) (question : Text)
    → parse_a_answer (head_bytes a b flags 0 ++ question ++ []) qname_len ≡ none
unfolding parse_a_answer
parse_empty_head a b flags qname_len question =
    let long : ltb (length (head_bytes a b flags 0 ++ question ++ [])) 12 ≡ false =
      ltb-ge (length (head_bytes a b flags 0 ++ question ++ [])) 12 (omega arith) in
    rw long refl

-- For a query with a whole question, an answer of type A that is built from an address is read
-- back as that address, and an answer that is built without one is read as none.
pub parse_a_answer-build_response :
    (query domain ip : Text) (question_len rcode : ℕ)
    → 12 ≤ length query
    → 16 ≤ question_len
    → question_len ≤ length query
    → length ip ≡ 4
    → (answer empty : Text) × (build_response query domain 1 (some ip) question_len rcode
        ≡ some answer)
      × (build_response query domain 28 none question_len rcode ≡ some empty)
      × (parse_a_answer answer (question_len - 16) ≡ some ip)
      × (parse_a_answer empty (question_len - 16) ≡ none)
unfolding build_response
parse_a_answer-build_response [] domain ip question_len rcode long whole fits h =
    absurd (omega arith)
parse_a_answer-build_response (a ∷ []) domain ip question_len rcode long whole fits h =
    absurd (omega arith)
parse_a_answer-build_response (a ∷ b ∷ query) domain ip question_len rcode long whole fits h =
    let question = drop 12 (take question_len (a ∷ b ∷ query)) in
    let flags = bit_or 0x80 (bit_and rcode 0x0F) in
    let size : question_len - 16 + 4 ≡ length question = omega (
      arith,
      length-drop 12 (take question_len (a ∷ b ∷ query)),
      length-take question_len (a ∷ b ∷ query) fits,
    ) in
    let accepted : (ltb (length (a ∷ b ∷ query)) 12
          || (ltb question_len 13 || ltb (length (a ∷ b ∷ query)) question_len))
        ≡ false =
      ground arith in
    (
      head_bytes a b flags 1 ++ question ++ answer_record 1 (some ip),
      head_bytes a b flags 0 ++ question ++ [],
      rw accepted refl,
      rw accepted refl,
      parse_head a b flags (question_len - 16) question ip h size,
      parse_empty_head a b flags (question_len - 16) question,
    )
