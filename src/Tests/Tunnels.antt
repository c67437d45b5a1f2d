-- ===== src/Tests/Tunnels.antt =====
-- Sealed tunnels at concrete inputs.
use mirage_android.Prelude.{
  ℕ, ◌-◌, ◌≡◌, ap, ◌∙◌, true, false, some, List, [], ◌∷◌, ◌++◌, arith, Text, length, take,
  length-append, take-append,
}
use mirage_android.Data.Texts.{bytes}
use mirage_android.Crypto.Cipher.{aes256_gcm, Primitives, IsAead, derive_master}
use mirage_android.Crypto.Writer.{Rng, high, new_writer, Sealed}
use mirage_android.Crypto.Reader.{new_reader}
use mirage_android.Crypto.Plans.{IsRng}
use mirage_android.Crypto.Tunnel.{message, switch, transfer, messages, transfer-messages}
use mirage_android.Crypto.Counting.{Call, send, close, run_calls, Distinct}
use mirage_android.Crypto.Nonces.{run_calls-Distinct}

-- A sealing that only adds a tag of zeros.
abbrev tag : Text
tag = 0 ∷ 0 ∷ 0 ∷ 0 ∷ 0 ∷ 0 ∷ 0 ∷ 0 ∷ 0 ∷ 0 ∷ 0 ∷ 0 ∷ 0 ∷ 0 ∷ 0 ∷ 0 ∷ []

abbrev plain : Primitives
plain = record {
  extract = λ salt key. salt ++ key;
  expand = λ key info. key ++ info;
  seal = λ k nonce text. text ++ tag;
  unseal = λ k nonce text. some (take (length text - 16) text);
}

plain-IsAead : IsAead plain
plain-IsAead = record {
  unseal-seal = λ k nonce text.
      let size : length (text ++ tag) - 16 ≡ length text = omega (arith, length-append text tag) in
      ap some (ap (λ (n : ℕ). take n (text ++ tag)) size ∙ take-append text tag);
  length-seal = λ k nonce text. length-append text tag;
}

abbrev lowest : Rng
lowest = record { usize = λ i lo hi. lo; f64 = λ i. high }

lowest-IsRng : IsRng lowest
lowest-IsRng i lo hi h = (omega arith, h)

abbrev two_places : List (ℕ × ℕ)
two_places = (3, 9) ∷ (5, 5) ∷ []

transfer-messages_example :
    transfer plain lowest
      (new_writer plain (derive_master plain (bytes "pw") (1 ∷ []) (2 ∷ [])) true true two_places)
      (new_reader plain (derive_master plain (bytes "pw") (1 ∷ []) (2 ∷ [])) false)
      (message (bytes "hello") ∷ switch aes256_gcm ∷ message (bytes "bye") ∷ [])
    ≡ some (messages (message (bytes "hello") ∷ switch aes256_gcm ∷ message (bytes "bye") ∷ []))
transfer-messages_example =
    transfer-messages plain lowest (bytes "pw") (1 ∷ []) (2 ∷ []) true true two_places
      (message (bytes "hello") ∷ switch aes256_gcm ∷ message (bytes "bye") ∷ []) plain-IsAead
      lowest-IsRng ((omega arith, omega arith), ((omega arith, omega arith), tt)) (omega arith)
      (omega arith)

run_calls-Distinct_example :
    (rs : List Sealed) × (run_calls plain lowest
        (new_writer plain (1 ∷ []) true true two_places)
        (send (bytes "hello") ∷ Call.switch aes256_gcm ∷ send (bytes "bye") ∷ close ∷ [])
      ≡ some rs)
    × Distinct rs
run_calls-Distinct_example =
    run_calls-Distinct plain lowest (1 ∷ []) true true two_places
      (send (bytes "hello") ∷ Call.switch aes256_gcm ∷ send (bytes "bye") ∷ close ∷ []) lowest-IsRng
      ((omega arith, omega arith), ((omega arith, omega arith), tt)) (omega arith)
