-- ===== src/Auth/Opening.antt =====
-- crypto/hello_auth.rs: what the server reads in a token that a client made.
use mirage_android.Prelude.{
  ℕ, zero, suc, ◌+◌, ◌*◌, ◌/◌, ◌%◌, ◌^◌, ◌≤◌, ◌<◌, ◌≡◌, refl, sym, ap, subst, ◌∙◌, true, false, [],
  ◌∷◌, ◌++◌, arith, if◌then◌else◌, Text, length, take, drop, text_eq, text_eq_iff, All, length-take,
  length-append, drop-append, take-append,
}
use mathlib.Core.List.{append_assoc}
use mirage_android.Auth.Token.{
  Digests, IsDigests, token_ts_bytes, from_be, be64, xor_bits, xor_bytes, ts_mask, poly1305_tag,
  make_session_token, ts_within_tolerance,
}
use mirage_android.Auth.Replay.{
  TokenReplayCache, check_and_insert, retained_buckets, verify_session_token,
}

xor_bits_bound : (bits a b : ℕ) → xor_bits bits a b < 2 ^ bits
xor_bits_bound zero a b = omega arith
xor_bits_bound (suc bits) a b = omega (arith, xor_bits_bound bits (a / 2) (b / 2))

xor_bits_twice : (bits a b : ℕ) → a < 2 ^ bits → xor_bits bits (xor_bits bits a b) b ≡ a
xor_bits_twice zero a b h = omega arith
xor_bits_twice (suc bits) a b h =
    let rest : ℕ = xor_bits bits (a / 2) (b / 2) in
    let half : ((a % 2 + b % 2) % 2 + 2 * rest) / 2 ≡ rest = omega arith in
    let back : xor_bits bits rest (b / 2) ≡ a / 2 =
      xor_bits_twice bits (a / 2) (b / 2) (omega arith) in
    rw (half, back) (omega arith)

xor_bytes_twice :
    (a m : Text) → length a ≤ length m → All (λ x. x < 256) a → xor_bytes (xor_bytes a m) m ≡ a
xor_bytes_twice [] m size h = refl
xor_bytes_twice (x ∷ xs) [] size h = absurd (omega arith)
xor_bytes_twice (x ∷ xs) (y ∷ ys) size (hx, h) =
    let here : xor_bits 8 (xor_bits 8 x y) y ≡ x = xor_bits_twice 8 x y hx in
    rw (here, xor_bytes_twice xs ys (omega arith) h) refl

from_be-be64 : (n : ℕ) → n < 2 ^ 64 → from_be 0 (be64 n) ≡ n
from_be-be64 n h = omega arith

length-xor_bytes : (a m : Text) → length a ≤ length m → length (xor_bytes a m) ≡ length a
length-xor_bytes [] m h = refl
length-xor_bytes (x ∷ xs) [] h = absurd (omega arith)
length-xor_bytes (x ∷ xs) (y ∷ ys) h = omega (arith, length-xor_bytes xs ys (omega arith))

module _ (d : Digests) (password bind random_prefix : Text) (ts : ℕ) (h : IsDigests d)
    (prefix_size : length random_prefix ≡ 8) (bound : ts < 2 ^ 64) where
  abbrev hidden : Text
  hidden = xor_bytes (be64 ts) (ts_mask d password random_prefix)

  abbrev tag : Text
  tag = poly1305_tag d password (be64 ts) random_prefix bind

  take_append_by : (n : ℕ) (xs ys : Text) → length xs ≡ n → take n (xs ++ ys) ≡ xs
  take_append_by n xs ys e = subst (λ (k : ℕ). take k (xs ++ ys) ≡ xs) e (take-append xs ys)

  drop_append_by : (n : ℕ) (xs ys : Text) → length xs ≡ n → drop n (xs ++ ys) ≡ ys
  drop_append_by n xs ys e = subst (λ (k : ℕ). drop k (xs ++ ys) ≡ ys) e (drop-append xs ys)

  mask_size : length (ts_mask d password random_prefix) ≡ 8
  unfolding ts_mask
  mask_size = omega (
    arith,
    length-take 8 (d.hmac (d.sha256 password) random_prefix)
        (omega (arith, h.hmac_size (d.sha256 password) random_prefix)),
  )

  hidden_size : length hidden ≡ 8
  hidden_size =
      length-xor_bytes (be64 ts) (ts_mask d password random_prefix) (omega (arith, mask_size))

  token_prefix : take 8 (make_session_token d password bind random_prefix ts) ≡ random_prefix
  unfolding make_session_token
  token_prefix = take_append_by 8 random_prefix (hidden ++ tag) prefix_size

  token_tag : drop 16 (make_session_token d password bind random_prefix ts) ≡ tag
  unfolding make_session_token
  token_tag =
      ap (drop 16) (sym (append_assoc random_prefix hidden tag))
      ∙ drop_append_by 16 (random_prefix ++ hidden) tag
          (omega (arith, length-append random_prefix hidden, hidden_size))

  token_hidden : take 8 (drop 8 (make_session_token d password bind random_prefix ts)) ≡ hidden
  unfolding make_session_token
  token_hidden =
      rw (drop_append_by 8 random_prefix (hidden ++ tag) prefix_size)
        (take_append_by 8 hidden tag hidden_size)

  token_ts_bytes-make :
      token_ts_bytes d password (make_session_token d password bind random_prefix ts) ≡ be64 ts
  unfolding token_ts_bytes
  token_ts_bytes-make =
      rw (token_hidden, token_prefix)
        (xor_bytes_twice (be64 ts) (ts_mask d password random_prefix) (omega (arith, mask_size))
          (ground arith))

  -- A token that is made for a time below 2^64 with a prefix of eight bytes, and verified with the
  -- same password and bound bytes (HMAC giving 32 bytes and Poly1305 16), shows that very time:
  -- the answer and the cache are those of the replay cache if the time is within the tolerance,
  -- and else the token is refused and the cache does not change.
  pub verify_session_token-make_session_token :
      (tolerance_secs now : ℕ) (c : TokenReplayCache)
      → verify_session_token d password tolerance_secs now c
          (make_session_token d password bind random_prefix ts)
          bind
        ≡ (if ts_within_tolerance ts now tolerance_secs
            then check_and_insert c ts
                (make_session_token d password bind random_prefix ts)
                (retained_buckets tolerance_secs)
            else (c, false))
  unfolding verify_session_token
  verify_session_token-make_session_token tolerance_secs now c =
      let same : text_eq tag tag ≡ true = (text_eq_iff tag tag).1 refl in
      rw (token_ts_bytes-make, token_prefix, token_tag, same, from_be-be64 ts bound) refl
