-- ===== src/Geo/Runs.antt =====
-- geo.rs: the runs of the readers' loops as derivations, and the fuel that reaches their ends.
use mirage_android.Prelude.{
  ℕ, zero, suc, ◌/◌, ◌%◌, ◌≤◌, ◌≡◌, refl, Option, none, some, [], ◌∷◌, arith, Text, length,
}
use mirage_android.Geo.Wire.{
  read_varint, Outcome, fail, stop, next, Arm, continue, run_arm, fields, continue_file,
  run_file_arm, file_fields,
}
use mirage_android.Geo.Fuel.{read_varint-shorter, Leaves, ArmLeaves}

module _ {S : Type 0} where
  -- The runs of a message's loop, without fuel: `while pos < buf.len()` with the outcome of each arm.
  -- A derivation is a run that ends.
  pub data Ends (arm : Arm S) : S → Text → Option S → Type 0 where
    at_end : (s : S) → Ends arm s [] (some s)
    bad_tag :
        (s : S) (b : ℕ) (buf : Text) → read_varint (b ∷ buf) ≡ none → Ends arm s (b ∷ buf) none
    fails :
        (s : S) (b : ℕ) (buf : Text) (tag : ℕ) (rest : Text)
        → read_varint (b ∷ buf) ≡ some (tag, rest)
        → arm s (tag / 8) (tag % 8) rest ≡ fail
        → Ends arm s (b ∷ buf) none
    stops :
        (s : S) (b : ℕ) (buf : Text) (tag : ℕ) (rest : Text)
        → read_varint (b ∷ buf) ≡ some (tag, rest)
        → arm s (tag / 8) (tag % 8) rest ≡ stop
        → Ends arm s (b ∷ buf) (some s)
    goes_on :
        (s : S) (b : ℕ) (buf : Text) (tag : ℕ) (rest : Text) (s' : S) (rest' : Text) (o : Option S)
        → read_varint (b ∷ buf) ≡ some (tag, rest)
        → arm s (tag / 8) (tag % 8) rest ≡ next s' rest'
        → Ends arm s' rest' o
        → Ends arm s (b ∷ buf) o

  Ends-by :
      (arm : Arm S) (loop : S → Text → Option S) (s : S) (b : ℕ) (buf : Text) (tag : ℕ)
      (rest : Text) (o : Outcome S)
      → read_varint (b ∷ buf) ≡ some (tag, rest)
      → arm s (tag / 8) (tag % 8) rest ≡ o
      → Leaves (length buf) o
      → ((s' : S) (rest' : Text) → length rest' ≤ length buf → Ends arm s' rest' (loop s' rest'))
      → Ends arm s (b ∷ buf) (continue loop s o)
  Ends-by arm loop s b buf tag rest fail e e' h ih = fails s b buf tag rest e e'
  Ends-by arm loop s b buf tag rest stop e e' h ih = stops s b buf tag rest e e'
  Ends-by arm loop s b buf tag rest (next s' rest') e e' h ih =
      goes_on s b buf tag rest s' rest' (loop s' rest') e e' (ih s' rest' h)

  Leaves-le : (n m : ℕ) (o : Outcome S) → n ≤ m → Leaves n o → Leaves m o
  Leaves-le n m fail le h = tt
  Leaves-le n m stop le h = tt
  Leaves-le n m (next s rest) le h = omega arith

  Ends-tag :
      (arm : Arm S) (loop : S → Text → Option S) (s : S) (b : ℕ) (buf : Text)
      (o : Option (ℕ × Text))
      → read_varint (b ∷ buf) ≡ o
      → ArmLeaves arm
      → ((s' : S) (rest' : Text) → length rest' ≤ length buf → Ends arm s' rest' (loop s' rest'))
      → Ends arm s (b ∷ buf) (run_arm arm loop s o)
  Ends-tag arm loop s b buf none e leaves ih = bad_tag s b buf e
  Ends-tag arm loop s b buf (some (tag, rest)) e leaves ih =
      Ends-by arm loop s b buf tag rest (arm s (tag / 8) (tag % 8) rest) e refl
        (Leaves-le (length rest) (length buf) (arm s (tag / 8) (tag % 8) rest)
          (omega (arith, read_varint-shorter (b ∷ buf) tag rest e))
          (leaves s (tag / 8) (tag % 8) rest))
        ih

  -- As much fuel as there are bytes brings the loop to its end.
  pub fields-Ends :
      (arm : Arm S) (fuel : ℕ) (s : S) (buf : Text)
      → ArmLeaves arm
      → length buf ≤ fuel
      → Ends arm s buf (fields arm fuel s buf)
  unfolding fields
  fields-Ends arm zero s [] leaves h = at_end s
  fields-Ends arm zero s (b ∷ buf) leaves h = absurd (omega arith)
  fields-Ends arm (suc fuel) s [] leaves h = at_end s
  fields-Ends arm (suc fuel) s (b ∷ buf) leaves h =
      Ends-tag arm (fields arm fuel) s b buf (read_varint (b ∷ buf)) refl leaves
        (λ s' rest' k. fields-Ends arm fuel s' rest' leaves (omega arith))

  -- The runs of a file's loop, which a failed read ends as `break` does.
  pub data FileEnds (arm : Arm S) : S → Text → S → Type 0 where
    file_at_end : (s : S) → FileEnds arm s [] s
    file_bad_tag :
        (s : S) (b : ℕ) (buf : Text) → read_varint (b ∷ buf) ≡ none → FileEnds arm s (b ∷ buf) s
    file_fails :
        (s : S) (b : ℕ) (buf : Text) (tag : ℕ) (rest : Text)
        → read_varint (b ∷ buf) ≡ some (tag, rest)
        → arm s (tag / 8) (tag % 8) rest ≡ fail
        → FileEnds arm s (b ∷ buf) s
    file_stops :
        (s : S) (b : ℕ) (buf : Text) (tag : ℕ) (rest : Text)
        → read_varint (b ∷ buf) ≡ some (tag, rest)
        → arm s (tag / 8) (tag % 8) rest ≡ stop
        → FileEnds arm s (b ∷ buf) s
    file_goes_on :
        (s : S) (b : ℕ) (buf : Text) (tag : ℕ) (rest : Text) (s' : S) (rest' : Text) (r : S)
        → read_varint (b ∷ buf) ≡ some (tag, rest)
        → arm s (tag / 8) (tag % 8) rest ≡ next s' rest'
        → FileEnds arm s' rest' r
        → FileEnds arm s (b ∷ buf) r

  FileEnds-by :
      (arm : Arm S) (loop : S → Text → S) (s : S) (b : ℕ) (buf : Text) (tag : ℕ) (rest : Text)
      (o : Outcome S)
      → read_varint (b ∷ buf) ≡ some (tag, rest)
      → arm s (tag / 8) (tag % 8) rest ≡ o
      → Leaves (length buf) o
      → ((s' : S) (rest' : Text)
          → length rest' ≤ length buf
          → FileEnds arm s' rest' (loop s' rest'))
      → FileEnds arm s (b ∷ buf) (continue_file loop s o)
  FileEnds-by arm loop s b buf tag rest fail e e' h ih = file_fails s b buf tag rest e e'
  FileEnds-by arm loop s b buf tag rest stop e e' h ih = file_stops s b buf tag rest e e'
  FileEnds-by arm loop s b buf tag rest (next s' rest') e e' h ih =
      file_goes_on s b buf tag rest s' rest' (loop s' rest') e e' (ih s' rest' h)

  FileEnds-tag :
      (arm : Arm S) (loop : S → Text → S) (s : S) (b : ℕ) (buf : Text) (o : Option (ℕ × Text))
      → read_varint (b ∷ buf) ≡ o
      → ArmLeaves arm
      → ((s' : S) (rest' : Text)
          → length rest' ≤ length buf
          → FileEnds arm s' rest' (loop s' rest'))
      → FileEnds arm s (b ∷ buf) (run_file_arm arm loop s o)
  FileEnds-tag arm loop s b buf none e leaves ih = file_bad_tag s b buf e
  FileEnds-tag arm loop s b buf (some (tag, rest)) e leaves ih =
      FileEnds-by arm loop s b buf tag rest (arm s (tag / 8) (tag % 8) rest) e refl
        (Leaves-le (length rest) (length buf) (arm s (tag / 8) (tag % 8) rest)
          (omega (arith, read_varint-shorter (b ∷ buf) tag rest e))
          (leaves s (tag / 8) (tag % 8) rest))
        ih

  pub file_fields-FileEnds :
      (arm : Arm S) (fuel : ℕ) (s : S) (buf : Text)
      → ArmLeaves arm
      → length buf ≤ fuel
      → FileEnds arm s buf (file_fields arm fuel s buf)
  unfolding file_fields
  file_fields-FileEnds arm zero s [] leaves h = file_at_end s
  file_fields-FileEnds arm zero s (b ∷ buf) leaves h = absurd (omega arith)
  file_fields-FileEnds arm (suc fuel) s [] leaves h = file_at_end s
  file_fields-FileEnds arm (suc fuel) s (b ∷ buf) leaves h =
      FileEnds-tag arm (file_fields arm fuel) s b buf (read_varint (b ∷ buf)) refl leaves
        (λ s' rest' k. file_fields-FileEnds arm fuel s' rest' leaves (omega arith))
