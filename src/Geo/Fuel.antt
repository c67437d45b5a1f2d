-- ===== src/Geo/Fuel.antt =====
-- geo.rs: every round of the readers' loops reads a byte.
use mirage_android.Prelude.{
  ℕ, zero, suc, ◌+◌, ◌*◌, ◌%◌, ◌^◌, ◌≤◌, ◌<◌, ◌≡◌, refl, Option, none, some, [], ◌∷◌, arith,
  if◌then◌else◌, if_keeps, Text, length, take, drop, length-drop, ltb, ◌==◌, bit_and, bit_or,
}
use mirage_android.Data.Numerals.{◌>>=◌}
use mirage_android.Geo.Wire.{
  varint_loop, read_varint, read_len_delim, Outcome, fail, stop, next, skip_bytes, with_varint,
  with_data, skip_field, Arm,
}

varint_loop-shorter :
    (fuel shift result : ℕ) (buf : Text) (v : ℕ) (rest : Text)
    → varint_loop fuel shift result buf ≡ some (v, rest)
    → length rest < length buf
unfolding varint_loop
varint_loop-shorter zero shift result buf v rest e = cc
varint_loop-shorter (suc fuel) shift result [] v rest e = cc
varint_loop-shorter (suc fuel) shift result (b ∷ buf) v rest e = ground (
  arith,
  varint_loop-shorter fuel (shift + 7) (bit_or result (bit_and b 0x7F * 2 ^ shift % 2 ^ 64)) buf v
      rest,
)

pub read_varint-shorter :
    (buf : Text) (v : ℕ) (rest : Text) → read_varint buf ≡ some (v, rest) → length rest < length buf
unfolding read_varint
read_varint-shorter buf v rest e = varint_loop-shorter 10 0 0 buf v rest e

module _ {S : Type 0} where
  -- What the outcome leaves has at most so many bytes.
  abbrev pub Leaves : ℕ → Outcome S → Type 0
  Leaves n fail = Unit
  Leaves n stop = Unit
  Leaves n (next s rest) = length rest ≤ n

  abbrev pub ArmLeaves : Arm S → Type 0
  ArmLeaves arm =
      (s : S) (number wire : ℕ) (rest : Text) → Leaves (length rest) (arm s number wire rest)

  pub with_varint-Leaves :
      (buf : Text) (o : Option (ℕ × Text)) (f : ℕ → S)
      → read_varint buf ≡ o
      → Leaves (length buf) (with_varint o f)
  with_varint-Leaves buf none f e = tt
  with_varint-Leaves buf (some (v, rest)) f e = omega (arith, read_varint-shorter buf v rest e)

  delimited-Leaves :
      (buf : Text) (o : Option (ℕ × Text)) (f : Text → S)
      → read_varint buf ≡ o
      → Leaves (length buf) (
          with_data
            (o >>= λ (len, rest).
              if ltb (length rest) len then none else some (take len rest, drop len rest))
            f)
  delimited-Leaves buf none f e = tt
  delimited-Leaves buf (some (len, rest)) f e =
      if_keeps (λ o. Leaves (length buf) (with_data o f)) (ltb (length rest) len) (λ short. tt)
        (λ long. omega (arith, read_varint-shorter buf len rest e, length-drop len rest))

  pub with_data-Leaves :
      (buf : Text) (f : Text → S) → Leaves (length buf) (with_data (read_len_delim buf) f)
  unfolding read_len_delim
  with_data-Leaves buf f = delimited-Leaves buf (read_varint buf) f refl

  skip_bytes-Leaves : (n : ℕ) (s : S) (rest : Text) → Leaves (length rest) (skip_bytes n s rest)
  skip_bytes-Leaves n s rest =
      if_keeps (Leaves (length rest)) (ltb (length rest) n) (λ short. tt)
        (λ long. omega (arith, length-drop n rest))

  pub skip_field-Leaves :
      (wire : ℕ) (s : S) (rest : Text) → Leaves (length rest) (skip_field wire s rest)
  unfolding skip_field
  skip_field-Leaves wire s rest =
      let P = Leaves (length rest) in
      if_keeps P (wire == 0) (λ e. with_varint-Leaves rest (read_varint rest) (λ v. s) refl)
        (λ e.
          if_keeps P (wire == 2) (λ e. with_data-Leaves rest (λ payload. s))
            (λ e.
              if_keeps P (wire == 1) (λ e. skip_bytes-Leaves 8 s rest)
                (λ e. if_keeps P (wire == 5) (λ e. skip_bytes-Leaves 4 s rest) (λ e. tt))))
