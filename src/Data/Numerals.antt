-- ===== src/Data/Numerals.antt =====
-- Splitting text, and the standard library's readers of unsigned integers and IPv4 addresses.
use mirage_android.Prelude.{
  ◌%◌, ◌/◌, ℕ, zero, suc, ◌+◌, ◌-◌, ◌*◌, ◌^◌, ◌≤◌, ◌<◌, ◌≡◌, refl, Bool, ◌&&◌, ◌||◌, Option, none,
  some, List, [], ◌∷◌, arith, if◌then◌else◌, length, leb, ltb, ◌==◌, Text,
}
use mirage_android.Data.Texts.{bytes}

infixl 5 ◌>>=◌
abbrev pub ◌>>=◌ {ℓ κ} : {A : Type ℓ} {B : Type κ} → Option A → (A → Option B) → Option B
none >>= f = none
some a >>= f = f a

pub >>=-some {ℓ κ} :
    {A : Type ℓ} {B : Type κ} (m : Option A) (f : A → Option B) {b : B}
    → (m >>= f) ≡ some b
    → (a : A) × (m ≡ some a) × (f a ≡ some b)
>>=-some none f h = cc
>>=-some (some a) f h = (a, refl, h)

abbrev pub cons_head : ℕ → List Text → List Text
cons_head x [] = (x ∷ []) ∷ []
cons_head x (part ∷ parts) = (x ∷ part) ∷ parts

-- `split(c)`: one part more than there are separators.
unfoldable pub split : ℕ → Text → List Text
split c [] = [] ∷ []
split c (x ∷ xs) = let rest = split c xs in if x == c then [] ∷ rest else cons_head x rest

-- `split_once(c)`: before and after the first separator.
unfoldable pub split_once : ℕ → Text → Option (Text × Text)
split_once c [] = none
split_once c (x ∷ xs) =
    let rest = split_once c xs in
    if x == c then some ([], xs) else elim rest [ none ↦ none | some (a, b) ↦ some (x ∷ a, b) ]

-- `rsplit_once(c)`: before and after the last separator.
unfoldable pub rsplit_once : ℕ → Text → Option (Text × Text)
rsplit_once c [] = none
rsplit_once c (x ∷ xs) = elim (rsplit_once c xs) [
  | some (a, b) ↦ some (x ∷ a, b)
  | none ↦ if x == c then some ([], xs) else none
]

unfoldable pub strip_prefix : Text → Text → Option Text
strip_prefix [] s = some s
strip_prefix (p ∷ ps) [] = none
strip_prefix (p ∷ ps) (x ∷ xs) = if p == x then strip_prefix ps xs else none

abbrev pub is_digit : ℕ → Bool
is_digit c = leb b'0' c && leb c b'9'

unfoldable pub digits_value : ℕ → Text → Option ℕ
digits_value acc [] = some acc
digits_value acc (c ∷ cs) = if is_digit c then digits_value (acc * 10 + (c - 48)) cs else none

abbrev pub at_most : ℕ → Option ℕ → Option ℕ
at_most top none = none
at_most top (some n) = if leb n top then some n else none

unfoldable pub digits_up_to : ℕ → Text → Option ℕ
unfolding digits_value
digits_up_to top [] = none
digits_up_to top (c ∷ cs) = at_most top (digits_value 0 (c ∷ cs))

-- `parse::<uN>()` with the type's greatest value: digits behind an optional `+`.
unfoldable pub parse_unsigned : ℕ → Text → Option ℕ
unfolding digits_up_to
parse_unsigned top [] = none
parse_unsigned top (c ∷ cs) = if c == b'+' then digits_up_to top cs else digits_up_to top (c ∷ cs)

-- One part of a dotted address: one to three digits, no zero in front of another digit, below 256.
unfoldable pub parse_octet : Text → Option ℕ
unfolding digits_up_to
parse_octet [] = none
parse_octet (c ∷ []) = digits_up_to 255 (c ∷ [])
parse_octet (c ∷ d ∷ ds) =
    if c == b'0' || ltb 1 (length ds) then none else digits_up_to 255 (c ∷ d ∷ ds)

-- `u32::from(Ipv4Addr::new(a, b, c, d))`.
abbrev pub ipv4 : ℕ → ℕ → ℕ → ℕ → ℕ
ipv4 a b c d = ((a * 256 + b) * 256 + c) * 256 + d

abbrev four_octets : List Text → Option ℕ
four_octets (a ∷ b ∷ c ∷ d ∷ []) = do
  a' ← parse_octet a
  b' ← parse_octet b
  c' ← parse_octet c
  d' ← parse_octet d
  some (ipv4 a' b' c' d')
four_octets _ = none

-- `parse::<Ipv4Addr>()`, as a 32-bit word.
unfoldable pub parse_ipv4 : Text → Option ℕ
unfolding parse_octet split
parse_ipv4 s = four_octets (split b'.' s)

-- `to_string` of an unsigned integer; the fuel is more than its digits.
unfoldable pub decimal_digits : ℕ → ℕ → Text → Text
decimal_digits zero n out = out
decimal_digits (suc fuel) n out =
    let out' = (48 + n % 10) ∷ out in
    let more = decimal_digits fuel (n / 10) out' in if ltb n 10 then out' else more

unfoldable pub decimal : ℕ → Text
unfolding decimal_digits
decimal n = decimal_digits (n + 1) n []

digits_up_to-le : (top : ℕ) (s : Text) (n : ℕ) → digits_up_to top s ≡ some n → n ≤ top
unfolding digits_up_to
digits_up_to-le top [] n h = ground arith
digits_up_to-le top (c ∷ cs) n h = unfold digits_value in ground arith

pub parse_unsigned-le : (top : ℕ) (s : Text) (n : ℕ) → parse_unsigned top s ≡ some n → n ≤ top
unfolding parse_unsigned
parse_unsigned-le top [] n h = cc
parse_unsigned-le top (c ∷ cs) n h =
    ground (arith, digits_up_to-le top cs n, digits_up_to-le top (c ∷ cs) n)

parse_octet-le : (s : Text) (n : ℕ) → parse_octet s ≡ some n → n ≤ 255
unfolding parse_octet
parse_octet-le [] n h = ground arith
parse_octet-le (c ∷ []) n h = digits_up_to-le 255 (c ∷ []) n h
parse_octet-le (c ∷ d ∷ ds) n h = ground (arith, digits_up_to-le 255 (c ∷ d ∷ ds) n)

four_octets-lt : (parts : List Text) (n : ℕ) → four_octets parts ≡ some n → n < 2 ^ 32
four_octets-lt [] n h = cc
four_octets-lt (a ∷ []) n h = cc
four_octets-lt (a ∷ b ∷ []) n h = cc
four_octets-lt (a ∷ b ∷ c ∷ []) n h = cc
four_octets-lt (a ∷ b ∷ c ∷ d ∷ []) n h = grind (arith, parse_octet-le)
four_octets-lt (a ∷ b ∷ c ∷ d ∷ e ∷ _) n h = cc

-- A parsed address is a 32-bit word.
pub parse_ipv4-lt : (s : Text) (n : ℕ) → parse_ipv4 s ≡ some n → n < 2 ^ 32
unfolding parse_ipv4
parse_ipv4-lt s n h = four_octets-lt (split b'.' s) n h

parse_tests :
    (parse_ipv4 (bytes "198.18.0.2") ≡ some 3323068418)
    × (parse_ipv4 (bytes "1.2.3.04") ≡ none)
    × (parse_ipv4 (bytes "1.2.3") ≡ none)
    × (parse_unsigned 65535 (bytes "+443") ≡ some 443)
    × (parse_unsigned 65535 (bytes "65536") ≡ none)
    × (decimal 3323068418 ≡ bytes "3323068418")
unfolding parse_ipv4 parse_unsigned decimal
parse_tests = (refl, refl, refl, refl, refl, refl)
