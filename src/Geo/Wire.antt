-- ===== src/Geo/Wire.antt =====
-- geo.rs: the reader of protobuf fields. A place in a buffer is what stands behind it.
use mirage_android.Prelude.{
  ℕ, zero, suc, ◌+◌, ◌*◌, ◌/◌, ◌%◌, ◌^◌, Option, none, some, [], ◌∷◌, if◌then◌else◌, Text, length,
  take, drop, ltb, ◌==◌, bit_and, bit_or, if_keeps,
}
use mirage_android.Data.Numerals.{◌>>=◌}

-- The loop of `read_varint`; the fuel is the number of bytes before `shift >= 64`.
unfoldable pub varint_loop : ℕ → ℕ → ℕ → Text → Option (ℕ × Text)
varint_loop zero shift result rest = none
varint_loop (suc fuel) shift result [] = none
varint_loop (suc fuel) shift result (b ∷ rest) =
    let result' = bit_or result (bit_and b 0x7F * 2 ^ shift % 2 ^ 64) in
    let more = varint_loop fuel (shift + 7) result' rest in
    if bit_and b 0x80 == 0 then some (result', rest) else more

unfoldable pub read_varint : Text → Option (ℕ × Text)
unfolding varint_loop
read_varint buf = varint_loop 10 0 0 buf

-- The sum of the place and the length is taken not to overflow.
unfoldable pub read_len_delim : Text → Option (Text × Text)
unfolding read_varint
read_len_delim buf = read_varint buf >>= λ (len, rest).
    if ltb (length rest) len then none else some (take len rest, drop len rest)

-- What one field does: `?` and a failed read end the whole function, `break` ends the loop.
pub data Outcome (S : Type 0) : Type 0 where
  fail : Outcome S
  stop : Outcome S
  next : S → Text → Outcome S

abbrev pub skip_bytes : {S : Type 0} → ℕ → S → Text → Outcome S
skip_bytes n s rest = if ltb (length rest) n then stop else next s (drop n rest)

abbrev pub with_varint : {S : Type 0} → Option (ℕ × Text) → (ℕ → S) → Outcome S
with_varint none f = fail
with_varint (some (v, rest)) f = next (f v) rest

abbrev pub with_data : {S : Type 0} → Option (Text × Text) → (Text → S) → Outcome S
with_data none f = fail
with_data (some (payload, rest)) f = next (f payload) rest

-- The arms for a field that is not asked for.
unfoldable pub skip_field : {S : Type 0} → ℕ → S → Text → Outcome S
unfolding read_varint read_len_delim
skip_field wire s rest =
    if wire == 0
    then with_varint (read_varint rest) (λ v. s)
    else if wire == 2
    then with_data (read_len_delim rest) (λ payload. s)
    else if wire == 1
    then skip_bytes 8 s rest
    else if wire == 5
    then skip_bytes 4 s rest
    else stop

-- The arm of a message: the state, the field's number and wire type, and what follows.
abbrev pub Arm : Type 0 → Type 0
Arm S = S → ℕ → ℕ → Text → Outcome S

module _ {S : Type 0} where
  abbrev pub continue : (S → Text → Option S) → S → Outcome S → Option S
  continue loop s fail = none
  continue loop s stop = some s
  continue loop s (next s' rest) = loop s' rest

  abbrev pub run_arm : Arm S → (S → Text → Option S) → S → Option (ℕ × Text) → Option S
  run_arm arm loop s none = none
  run_arm arm loop s (some (tag, rest)) = continue loop s (arm s (tag / 8) (tag % 8) rest)

  -- `while pos < buf.len()`; each round reads at least one byte.
  unfoldable pub fields : Arm S → ℕ → S → Text → Option S
  unfolding read_varint
  fields arm zero s buf = some s
  fields arm (suc fuel) s [] = some s
  fields arm (suc fuel) s (b ∷ buf) = run_arm arm (fields arm fuel) s (read_varint (b ∷ buf))

  -- The loop of a file: a failed read ends the loop as `break` does.
  abbrev pub continue_file : (S → Text → S) → S → Outcome S → S
  continue_file loop s fail = s
  continue_file loop s stop = s
  continue_file loop s (next s' rest) = loop s' rest

  abbrev pub run_file_arm : Arm S → (S → Text → S) → S → Option (ℕ × Text) → S
  run_file_arm arm loop s none = s
  run_file_arm arm loop s (some (tag, rest)) = continue_file loop s (arm s (tag / 8) (tag % 8) rest)

  unfoldable pub file_fields : Arm S → ℕ → S → Text → S
  unfolding read_varint
  file_fields arm zero s buf = s
  file_fields arm (suc fuel) s [] = s
  file_fields arm (suc fuel) s (b ∷ buf) =
      run_file_arm arm (file_fields arm fuel) s (read_varint (b ∷ buf))

  -- The state that an outcome goes on with has the property.
  abbrev pub Keeps : (S → Type 0) → Outcome S → Type 0
  Keeps P fail = Unit
  Keeps P stop = Unit
  Keeps P (next s rest) = P s

  -- Each arm keeps the property.
  abbrev pub ArmKeeps : (S → Type 0) → Arm S → Type 0
  ArmKeeps P arm = (s : S) (number wire : ℕ) (rest : Text) → P s → Keeps P (arm s number wire rest)

  -- The result of a loop, if any, has the property.
  abbrev pub OfSome : (S → Type 0) → Option S → Type 0
  OfSome P none = Unit
  OfSome P (some s) = P s

  continue-Keeps :
      (P : S → Type 0) (loop : S → Text → Option S) (s : S) (o : Outcome S)
      → ((s' : S) (rest : Text) → P s' → OfSome P (loop s' rest))
      → P s
      → Keeps P o
      → OfSome P (continue loop s o)
  continue-Keeps P loop s fail ih h k = tt
  continue-Keeps P loop s stop ih h k = h
  continue-Keeps P loop s (next s' rest) ih h k = ih s' rest k

  run_arm_keeps :
      (P : S → Type 0) (arm : Arm S) (loop : S → Text → Option S) (s : S) (o : Option (ℕ × Text))
      → ArmKeeps P arm
      → ((s' : S) (rest : Text) → P s' → OfSome P (loop s' rest))
      → P s
      → OfSome P (run_arm arm loop s o)
  run_arm_keeps P arm loop s none keeps ih h = tt
  run_arm_keeps P arm loop s (some (tag, rest)) keeps ih h =
      continue-Keeps P loop s (arm s (tag / 8) (tag % 8) rest) ih h
        (keeps s (tag / 8) (tag % 8) rest h)

  pub fields_keeps :
      (P : S → Type 0) (arm : Arm S) (fuel : ℕ) (s : S) (buf : Text)
      → ArmKeeps P arm
      → P s
      → OfSome P (fields arm fuel s buf)
  unfolding fields
  fields_keeps P arm zero s buf keeps h = h
  fields_keeps P arm (suc fuel) s [] keeps h = h
  fields_keeps P arm (suc fuel) s (b ∷ buf) keeps h =
      run_arm_keeps P arm (fields arm fuel) s (read_varint (b ∷ buf)) keeps
        (λ s' rest h'. fields_keeps P arm fuel s' rest keeps h') h

  continue_file_keeps :
      (P : S → Type 0) (loop : S → Text → S) (s : S) (o : Outcome S)
      → ((s' : S) (rest : Text) → P s' → P (loop s' rest))
      → P s
      → Keeps P o
      → P (continue_file loop s o)
  continue_file_keeps P loop s fail ih h k = h
  continue_file_keeps P loop s stop ih h k = h
  continue_file_keeps P loop s (next s' rest) ih h k = ih s' rest k

  run_file_arm_keeps :
      (P : S → Type 0) (arm : Arm S) (loop : S → Text → S) (s : S) (o : Option (ℕ × Text))
      → ArmKeeps P arm
      → ((s' : S) (rest : Text) → P s' → P (loop s' rest))
      → P s
      → P (run_file_arm arm loop s o)
  run_file_arm_keeps P arm loop s none keeps ih h = h
  run_file_arm_keeps P arm loop s (some (tag, rest)) keeps ih h =
      continue_file_keeps P loop s (arm s (tag / 8) (tag % 8) rest) ih h
        (keeps s (tag / 8) (tag % 8) rest h)

  pub file_fields_keeps :
      (P : S → Type 0) (arm : Arm S) (fuel : ℕ) (s : S) (buf : Text)
      → ArmKeeps P arm
      → P s
      → P (file_fields arm fuel s buf)
  unfolding file_fields
  file_fields_keeps P arm zero s buf keeps h = h
  file_fields_keeps P arm (suc fuel) s [] keeps h = h
  file_fields_keeps P arm (suc fuel) s (b ∷ buf) keeps h =
      run_file_arm_keeps P arm (file_fields arm fuel) s (read_varint (b ∷ buf)) keeps
        (λ s' rest h'. file_fields_keeps P arm fuel s' rest keeps h') h

  pub with_varint-Keeps :
      (P : S → Type 0) (o : Option (ℕ × Text)) (f : ℕ → S)
      → ((v : ℕ) → P (f v))
      → Keeps P (with_varint o f)
  with_varint-Keeps P none f h = tt
  with_varint-Keeps P (some (v, rest)) f h = h v

  pub with_data-Keeps :
      (P : S → Type 0) (o : Option (Text × Text)) (f : Text → S)
      → ((payload : Text) → P (f payload))
      → Keeps P (with_data o f)
  with_data-Keeps P none f h = tt
  with_data-Keeps P (some (payload, rest)) f h = h payload

  skip_bytes-Keeps :
      (P : S → Type 0) (n : ℕ) (s : S) (rest : Text) → P s → Keeps P (skip_bytes n s rest)
  skip_bytes-Keeps P n s rest h = if_keeps (Keeps P) (ltb (length rest) n) (λ short. tt) (λ long. h)

  pub skip_field-Keeps :
      (P : S → Type 0) (wire : ℕ) (s : S) (rest : Text) → P s → Keeps P (skip_field wire s rest)
  unfolding skip_field
  skip_field-Keeps P wire s rest h =
      if_keeps (Keeps P) (wire == 0) (λ e. with_varint-Keeps P (read_varint rest) (λ v. s) (λ v. h))
        (λ e.
          if_keeps (Keeps P) (wire == 2)
            (λ e. with_data-Keeps P (read_len_delim rest) (λ payload. s) (λ payload. h))
            (λ e.
              if_keeps (Keeps P) (wire == 1) (λ e. skip_bytes-Keeps P 8 s rest h)
                (λ e.
                  if_keeps (Keeps P) (wire == 5) (λ e. skip_bytes-Keeps P 4 s rest h) (λ e. tt))))
