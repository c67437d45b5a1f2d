-- ===== src/Data/Texts.antt =====
-- `str` operations over the bytes of a text. Case mapping is that of ASCII.
use Prim.Native.Char.{code}
use Prim.Native.String.{String}
use mirage_android.Prelude.{
  ℕ, ◌+◌, ◌-◌, ◌≡◌, refl, ap, ◌∙◌, Bool, true, false, ◌&&◌, ◌||◌, [], ◌∷◌, map, arith,
  if◌then◌else◌, leb, ◌==◌, Text, text_eq,
}

-- A literal's bytes, which are its code points where it is ASCII.
abbrev pub bytes : String → Text
bytes String.[] = []
bytes (String.◌∷◌ c s) = code c ∷ bytes s

abbrev pub dot : ℕ
dot = b'.'

unfoldable pub lower_byte : ℕ → ℕ
lower_byte c = if leb b'A' c && leb c b'Z' then c + 32 else c

unfoldable pub upper_byte : ℕ → ℕ
upper_byte c = if leb b'a' c && leb c b'z' then c - 32 else c

unfoldable pub to_ascii_lowercase : Text → Text
unfolding lower_byte
to_ascii_lowercase = map lower_byte

unfoldable pub to_ascii_uppercase : Text → Text
unfolding upper_byte
to_ascii_uppercase = map upper_byte

unfoldable pub eq_ignore_ascii_case : Text → Text → Bool
eq_ignore_ascii_case a b = text_eq (to_ascii_lowercase a) (to_ascii_lowercase b)

-- Puts a byte back before the trimmed rest.
unfoldable pub trim_step : ℕ → ℕ → Text → Text
trim_step c x [] = if x == c then [] else x ∷ []
trim_step c x (y ∷ ys) = x ∷ y ∷ ys

-- `trim_end_matches(c)`.
unfoldable pub trim_end_matches : ℕ → Text → Text
unfolding trim_step
trim_end_matches c [] = []
trim_end_matches c (x ∷ xs) = trim_step c x (trim_end_matches c xs)

-- White space of one, two and three bytes: the characters of Unicode's White_Space in UTF-8.
unfoldable pub is_space : ℕ → Bool
is_space c = c == 32 || (leb 9 c && leb c 13)

unfoldable pub is_space2 : ℕ → ℕ → Bool
is_space2 x y = x == 0xC2 && (y == 0x85 || y == 0xA0)

unfoldable pub is_space3 : ℕ → ℕ → ℕ → Bool
is_space3 x y z =
    (x == 0xE1 && y == 0x9A && z == 0x80)
    || (x == 0xE2
        && y == 0x80
        && ((leb 0x80 z && leb z 0x8A) || z == 0xA8 || z == 0xA9 || z == 0xAF))
    || (x == 0xE2 && y == 0x81 && z == 0x9F)
    || (x == 0xE3 && y == 0x80 && z == 0x80)

unfoldable pub trim_start : Text → Text
unfolding is_space is_space2 is_space3
trim_start [] = []
trim_start (x ∷ []) = if is_space x then [] else x ∷ []
trim_start (x ∷ y ∷ []) =
    let one = trim_start (y ∷ []) in
    if is_space x then one else if is_space2 x y then [] else x ∷ y ∷ []
trim_start (x ∷ y ∷ z ∷ rest) =
    let one = trim_start (y ∷ z ∷ rest) in
    let two = trim_start (z ∷ rest) in
    let three = trim_start rest in
    if is_space x
    then one
    else if is_space2 x y
    then two
    else if is_space3 x y z
    then three
    else x ∷ y ∷ z ∷ rest

-- A byte before the trimmed rest; with the first byte of white space, all of it goes.
unfoldable pub trim_end_step : ℕ → Text → Text
unfolding is_space is_space2 is_space3
trim_end_step x [] = if is_space x then [] else x ∷ []
trim_end_step x (y ∷ []) = if is_space2 x y then [] else x ∷ y ∷ []
trim_end_step x (y ∷ z ∷ []) = if is_space3 x y z then [] else x ∷ y ∷ z ∷ []
trim_end_step x (y ∷ z ∷ w ∷ rest) = x ∷ y ∷ z ∷ w ∷ rest

unfoldable pub trim_end : Text → Text
unfolding trim_end_step
trim_end [] = []
trim_end (x ∷ xs) = trim_end_step x (trim_end xs)

unfoldable pub trim : Text → Text
unfolding trim_start trim_end
trim s = trim_end (trim_start s)

unfoldable pub starts_with : Text → Text → Bool
starts_with s [] = true
starts_with [] (p ∷ ps) = false
starts_with (x ∷ xs) (p ∷ ps) = x == p && starts_with xs ps

-- `contains(&str)`: the pattern stands at some place.
unfoldable pub contains_text : Text → Text → Bool
unfolding starts_with
contains_text [] p = starts_with [] p
contains_text (x ∷ xs) p = starts_with (x ∷ xs) p || contains_text xs p

-- The pattern is one of the tails.
unfoldable pub ends_with : Text → Text → Bool
unfolding text_eq
ends_with [] p = text_eq [] p
ends_with (x ∷ xs) p = text_eq (x ∷ xs) p || ends_with xs p

-- `d == s || d.ends_with(&format!(".{s}"))`.
unfoldable pub is_under : Text → Text → Bool
unfolding ends_with
is_under d s = text_eq d s || ends_with d (dot ∷ s)

-- `trim_end_matches('.').to_ascii_lowercase()`, which the program makes of each domain.
unfoldable pub clean_domain : Text → Text
unfolding trim_end_matches to_ascii_lowercase
clean_domain d = to_ascii_lowercase (trim_end_matches dot d)

pub lower_byte_idem : (c : ℕ) → lower_byte (lower_byte c) ≡ lower_byte c
unfolding lower_byte
lower_byte_idem c = ground arith

lower_byte-dot : (c : ℕ) → (lower_byte c == dot) ≡ (c == dot)
unfolding lower_byte
lower_byte-dot c = ground arith

to_ascii_lowercase_idem :
    (s : Text) → to_ascii_lowercase (to_ascii_lowercase s) ≡ to_ascii_lowercase s
unfolding to_ascii_lowercase
to_ascii_lowercase_idem [] = refl
to_ascii_lowercase_idem (c ∷ s) = cc (lower_byte_idem c, to_ascii_lowercase_idem s)

trim_step-lower :
    (x : ℕ) (s : Text)
    → trim_step dot (lower_byte x) (to_ascii_lowercase s) ≡ to_ascii_lowercase (trim_step dot x s)
unfolding trim_step to_ascii_lowercase
trim_step-lower x [] = ground (arith, lower_byte-dot x)
trim_step-lower x (y ∷ ys) = refl

-- Trimming and lowering commute.
trim-lower :
    (s : Text)
    → trim_end_matches dot (to_ascii_lowercase s) ≡ to_ascii_lowercase (trim_end_matches dot s)
unfolding trim_end_matches to_ascii_lowercase
trim-lower [] = refl
trim-lower (x ∷ s) =
    ap (trim_step dot (lower_byte x)) (trim-lower s) ∙ trim_step-lower x (trim_end_matches dot s)

trim_step_fixed :
    (x : ℕ) (s : Text)
    → trim_end_matches dot s ≡ s
    → trim_end_matches dot (trim_step dot x s) ≡ trim_step dot x s
unfolding trim_end_matches
trim_step_fixed x [] h = ground arith
trim_step_fixed x (y ∷ ys) h = rw h

trim_end_matches_idem :
    (s : Text) → trim_end_matches dot (trim_end_matches dot s) ≡ trim_end_matches dot s
unfolding trim_end_matches
trim_end_matches_idem [] = refl
trim_end_matches_idem (x ∷ s) = trim_step_fixed x (trim_end_matches dot s) (trim_end_matches_idem s)

pub clean_domain_idem : (s : Text) → clean_domain (clean_domain s) ≡ clean_domain s
unfolding clean_domain
clean_domain_idem s =
    rw (trim-lower (trim_end_matches dot s), trim_end_matches_idem s)
      (to_ascii_lowercase_idem (trim_end_matches dot s))
