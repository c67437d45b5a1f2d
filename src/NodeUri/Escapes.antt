-- ===== src/NodeUri/Escapes.antt =====
-- node_uri.rs: escaped texts, and the splitting of what is put together.
use mirage_android.Prelude.{
  ℕ, ◌+◌, ◌/◌, ◌%◌, ◌<◌, ◌≡◌, ◌≢◌, refl, ap, ◌∙◌, Bool, true, false, none, some, [], ◌∷◌, ◌++◌,
  arith, if◌then◌else◌, Text, ltb, leb, ◌==◌, ◌&&◌, ◌||◌, All, Bool-cases, inl, inr, ==_iff,
}
use mirage_android.Data.Texts.{
  trim_end, trim_end_step, is_space, is_space2, is_space3, trim_end_matches, trim_step,
}
use mirage_android.Data.Numerals.{split, split_once, rsplit_once}
use mirage_android.NodeUri.Parse.{ok, hex_byte, cons_ok, decode_loop}

-- The bytes that stand for themselves.
abbrev pub is_unreserved : ℕ → Bool
is_unreserved c =
    (leb b'0' c && leb c b'9')
    || (leb b'A' c && leb c b'Z')
    || (leb b'a' c && leb c b'z')
    || c == b'-'
    || c == b'.'
    || c == b'_'
    || c == b'~'

abbrev pub hex_digit : ℕ → ℕ
hex_digit n = if ltb n 10 then n + 48 else n + 55

-- The escaped form of a text.
unfoldable pub percent_encode : Text → Text
percent_encode [] = []
percent_encode (c ∷ cs) =
    let rest = percent_encode cs in
    if is_unreserved c then c ∷ rest else b'%' ∷ hex_digit (c / 16) ∷ hex_digit (c % 16) ∷ rest

hex_byte-digits : (c : ℕ) → c < 256 → hex_byte (hex_digit (c / 16)) (hex_digit (c % 16)) ≡ some c
unfolding hex_byte
hex_byte-digits c h = ground arith

decode_plain :
    (c : ℕ) (rest : Text) → c ≢ b'%' → decode_loop (c ∷ rest) ≡ cons_ok c (decode_loop rest)
unfolding decode_loop
decode_plain c [] h = ground arith
decode_plain c (x ∷ []) h = ground arith
decode_plain c (x ∷ y ∷ rest) h = ground arith

escape_step :
    (c : ℕ) (rest : Text)
    → c < 256
    → decode_loop (b'%' ∷ hex_digit (c / 16) ∷ hex_digit (c % 16) ∷ rest)
      ≡ cons_ok c (decode_loop rest)
unfolding decode_loop
escape_step c rest h = rw (hex_byte-digits c h) refl

pub decode-encode : (s : Text) → All (λ c. c < 256) s → decode_loop (percent_encode s) ≡ ok s
unfolding percent_encode
decode-encode [] h = unfold decode_loop in refl
decode-encode (c ∷ cs) (hc, hs) = elim (Bool-cases (is_unreserved c)) [
  | inl plain ↦
      rw plain
        (decode_plain c (percent_encode cs) (ground arith) ∙ ap (cons_ok c) (decode-encode cs hs))
  | inr special ↦
      rw special (escape_step c (percent_encode cs) hc ∙ ap (cons_ok c) (decode-encode cs hs))
]

-- Texts without a byte.
abbrev pub Lacks : ℕ → Text → Type 0
Lacks c s = All (λ b. (b == c) ≡ false) s

rsplit_once_missing : (c : ℕ) (s : Text) → Lacks c s → rsplit_once c s ≡ none
unfolding rsplit_once
rsplit_once_missing c [] h = refl
rsplit_once_missing c (x ∷ xs) (h, hs) = rw (rsplit_once_missing c xs hs, h) refl

pub rsplit_once-append :
    (c : ℕ) (a b : Text) → Lacks c b → rsplit_once c (a ++ (c ∷ b)) ≡ some (a, b)
unfolding rsplit_once
rsplit_once-append c [] b h = rw (rsplit_once_missing c b h) (ground arith)
rsplit_once-append c (x ∷ a) b h = rw (rsplit_once-append c a b h) refl

pub split_once-append : (c : ℕ) (a b : Text) → Lacks c a → split_once c (a ++ (c ∷ b)) ≡ some (a, b)
unfolding split_once
split_once-append c [] b h = ground arith
split_once-append c (x ∷ a) b (h, hs) = rw (h, split_once-append c a b hs) refl

pub split-single : (c : ℕ) (s : Text) → Lacks c s → split c s ≡ s ∷ []
unfolding split
split-single c [] h = refl
split-single c (x ∷ xs) (h, hs) = rw (h, split-single c xs hs) refl

-- What escaped texts, hosts and ports are made of.
abbrev pub is_plain : ℕ → Bool
is_plain c = is_unreserved c || c == b'%'

abbrev pub IsPlain : Text → Type 0
IsPlain s = All (λ c. is_plain c ≡ true) s

abbrev pub IsUnreserved : Text → Type 0
IsUnreserved s = All (λ c. is_unreserved c ≡ true) s

abbrev pub is_decimal : ℕ → Bool
is_decimal c = leb b'0' c && leb c b'9'

abbrev pub IsDecimal : Text → Type 0
IsDecimal s = All (λ c. is_decimal c ≡ true) s

pub unreserved-IsPlain : (s : Text) → IsUnreserved s → IsPlain s
unreserved-IsPlain [] h = tt
unreserved-IsPlain (c ∷ cs) (h, hs) = (ground arith, unreserved-IsPlain cs hs)

pub decimal-IsPlain : (s : Text) → IsDecimal s → IsPlain s
decimal-IsPlain [] h = tt
decimal-IsPlain (c ∷ cs) (h, hs) = (ground arith, decimal-IsPlain cs hs)

hex_digit-plain : (n : ℕ) → n < 16 → is_plain (hex_digit n) ≡ true
hex_digit-plain n h = ground arith

pub encode-IsPlain : (s : Text) → All (λ c. c < 256) s → IsPlain (percent_encode s)
unfolding percent_encode
encode-IsPlain [] h = tt
encode-IsPlain (c ∷ cs) (hc, hs) = elim (Bool-cases (is_unreserved c)) [
  | inl plain ↦ rw plain (rw plain refl, encode-IsPlain cs hs)
  | inr special ↦ rw special (
    refl,
    (
      hex_digit-plain (c / 16) (omega arith),
      (hex_digit-plain (c % 16) (omega arith), encode-IsPlain cs hs),
    ),
  )
]

plain_clash : (c x : ℕ) → (x == c) ≡ true → is_plain c ≡ false → is_plain x ≡ true → ⊥
plain_clash c x same h k = cc ((==_iff x c).0 same)

pub Plain-Lacks : (c : ℕ) (s : Text) → is_plain c ≡ false → IsPlain s → Lacks c s
Plain-Lacks c [] h k = tt
Plain-Lacks c (x ∷ xs) h (k, ks) = (differs c x h k, Plain-Lacks c xs h ks)
  where
    differs : (c x : ℕ) → is_plain c ≡ false → is_plain x ≡ true → (x == c) ≡ false
    differs c x h k = elim (Bool-cases (x == c)) [
      | inl same ↦ absurd (plain_clash c x same h k)
      | inr other ↦ other
    ]

pub Lacks-append : (c : ℕ) (a b : Text) → Lacks c a → Lacks c b → Lacks c (a ++ b)
Lacks-append c [] b h k = k
Lacks-append c (x ∷ a) b (h, hs) k = (h, Lacks-append c a b hs k)

-- White space of several bytes does not begin with a byte of ASCII.
abbrev pub AreAscii : Text → Type 0
AreAscii s = All (λ c. c < 128) s

pub AreAscii-append : (a b : Text) → AreAscii a → AreAscii b → AreAscii (a ++ b)
AreAscii-append [] b h k = k
AreAscii-append (x ∷ a) b (h, hs) k = (h, AreAscii-append a b hs k)

pub IsPlain-AreAscii : (s : Text) → IsPlain s → AreAscii s
IsPlain-AreAscii [] h = tt
IsPlain-AreAscii (x ∷ xs) (h, hs) = (ground arith, IsPlain-AreAscii xs hs)

pub ascii_step : (x y : ℕ) (ys : Text) → x < 128 → trim_end_step x (y ∷ ys) ≡ x ∷ y ∷ ys
unfolding trim_end_step is_space2 is_space3
ascii_step x y [] h = ground arith
ascii_step x y (z ∷ []) h = ground arith
ascii_step x y (z ∷ w ∷ rest) h = refl

plain_step : (x : ℕ) (xs : Text) → is_plain x ≡ true → trim_end_step x xs ≡ x ∷ xs
unfolding trim_end_step is_space
plain_step x [] h = ground arith
plain_step x (y ∷ ys) h = ascii_step x y ys (ground arith)

front_step :
    (x : ℕ) (a : Text) (y : ℕ) (ys : Text)
    → x < 128
    → trim_end_step x (a ++ (y ∷ ys)) ≡ x ∷ (a ++ (y ∷ ys))
front_step x [] y ys h = ascii_step x y ys h
front_step x (z ∷ a) y ys h = ascii_step x z (a ++ (y ∷ ys)) h

slash_step : (x : ℕ) (xs : Text) → is_decimal x ≡ true → trim_step b'/' x xs ≡ x ∷ xs
unfolding trim_step
slash_step x [] h = ground arith
slash_step x (y ∷ ys) h = refl

-- Nothing is trimmed behind a byte that is no white space.
pub trim_end_plain : (s : Text) → IsPlain s → trim_end s ≡ s
unfolding trim_end
trim_end_plain [] h = refl
trim_end_plain (x ∷ xs) (h, hs) = rw (trim_end_plain xs hs) (plain_step x xs h)

pub trim_end-append :
    (a : Text) (y : ℕ) (ys : Text)
    → AreAscii a
    → trim_end (y ∷ ys) ≡ y ∷ ys
    → trim_end (a ++ (y ∷ ys)) ≡ a ++ (y ∷ ys)
unfolding trim_end
trim_end-append [] y ys ascii h = h
trim_end-append (x ∷ a) y ys (hx, ascii) h =
    rw (trim_end-append a y ys ascii h) (front_step x a y ys hx)

pub trim_slash : (s : Text) → IsDecimal s → trim_end_matches b'/' s ≡ s
unfolding trim_end_matches
trim_slash [] h = refl
trim_slash (x ∷ xs) (h, hs) = rw (trim_slash xs hs) (slash_step x xs h)
