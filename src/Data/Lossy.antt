-- ===== src/Data/Lossy.antt =====
-- `String::from_utf8_lossy`: each longest ill-formed part of a sequence becomes U+FFFD.
use mirage_android.Prelude.{
  ℕ, ◌-◌, ◌≡◌, refl, Bool, ◌&&◌, [], ◌∷◌, ◌++◌, if◌then◌else◌, Text, leb, ltb, ◌==◌,
}

-- The bytes of a character so far, how many more it needs, and the range of the next one.
pub record Pending : Type 0 where
  pub seen : Text
  pub need : ℕ
  pub low : ℕ
  pub high : ℕ

abbrev replacement : Text
replacement = 0xEF ∷ 0xBF ∷ 0xBD ∷ []

abbrev nothing : Pending
nothing = record { seen = []; need = 0; low = 0; high = 0 }

abbrev between : ℕ → ℕ → ℕ → Bool
between lo hi b = leb lo b && leb b hi

abbrev expect : ℕ → ℕ → ℕ → ℕ → Text × Pending
expect b need low high = ([], record { seen = b ∷ []; need = need; low = low; high = high })

-- The first byte of a character.
abbrev start : ℕ → Text × Pending
start b =
    if ltb b 0x80
    then (b ∷ [], nothing)
    else if between 0xC2 0xDF b
    then expect b 1 0x80 0xBF
    else if b == 0xE0
    then expect b 2 0xA0 0xBF
    else if b == 0xED
    then expect b 2 0x80 0x9F
    else if between 0xE1 0xEF b
    then expect b 2 0x80 0xBF
    else if b == 0xF0
    then expect b 3 0x90 0xBF
    else if b == 0xF4
    then expect b 3 0x80 0x8F
    else if between 0xF1 0xF3 b
    then expect b 3 0x80 0xBF
    else (replacement, nothing)

abbrev in_front : Text → Text × Pending → Text × Pending
in_front text (out, p) = (text ++ out, p)

abbrev lossy_step : Pending → ℕ → Text × Pending
lossy_step p b =
    if p.need == 0
    then start b
    else if between p.low p.high b
    then if p.need == 1
      then (p.seen ++ (b ∷ []), nothing)
      else ([], record { seen = p.seen ++ (b ∷ []); need = p.need - 1; low = 0x80; high = 0xBF })
    else in_front replacement (start b)

unfoldable pub lossy_loop : Pending → Text → Text
lossy_loop p [] = if p.need == 0 then [] else replacement
lossy_loop p (b ∷ rest) = let (out, p') = lossy_step p b in out ++ lossy_loop p' rest

unfoldable pub from_utf8_lossy : Text → Text
unfolding lossy_loop
from_utf8_lossy s = lossy_loop nothing s

lossy_tests :
    (from_utf8_lossy (0x61 ∷ 0xE4 ∷ 0xBD ∷ 0xA0 ∷ []) ≡ 0x61 ∷ 0xE4 ∷ 0xBD ∷ 0xA0 ∷ [])
    × (from_utf8_lossy (0xE4 ∷ 0xBD ∷ 0x61 ∷ []) ≡ 0xEF ∷ 0xBF ∷ 0xBD ∷ 0x61 ∷ [])
unfolding from_utf8_lossy
lossy_tests = (refl, refl)
