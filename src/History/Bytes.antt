-- ===== src/History/Bytes.antt =====
-- components/smoker_platform/src/history_support.cpp: integers and floats as bytes, least
-- significant first, and the reading of bytes behind a cursor.
use smoker_firmware.Common.{
  ℕ, zero, suc, ◌+◌, ◌-◌, ◌*◌, ◌/◌, ◌%◌, ◌^◌, ◌<◌, ◌≡◌, ap, ◌∙◌, List, [], ◌∷◌, ◌++◌, Bool, true,
  false, Option, none, some, arith, if◌then◌else◌, ltb, leb,
}
use smoker_firmware.Common.Int.{ℤ, pos, negsuc, ◌≤ℤ◌, ◌<ℤ◌}
use smoker_firmware.Common.Float32.{Float32}
use mathlib.Core.List.{append_assoc}

abbrev pub Bytes : Type 0
Bytes = List ℕ

-- `put` and `append_integer` of an unsigned value of `n` bytes.
unfoldable pub put : ℕ → ℕ → Bytes
put zero v = []
put (suc n) v = v % 256 ∷ put n (v / 256)

-- The bits of an `int64_t`.
abbrev pub to_bits : ℤ → ℕ
to_bits (pos n) = n % 2 ^ 64
to_bits (negsuc n) = 2 ^ 64 - 1 - n % 2 ^ 64

abbrev pub of_bits : ℕ → ℤ
of_bits w = if ltb w (2 ^ 63) then pos w else negsuc (2 ^ 64 - 1 - w)

unfoldable pub put_signed : ℤ → Bytes
unfolding put
put_signed z = put 8 (to_bits z)

-- `std::bit_cast` between a float and its word.
abbrev pub float_bits : Float32 → ℕ
float_bits x = (if x.negative then 2 ^ 31 else 0) + x.magnitude

abbrev pub float_of_bits : ℕ → Float32
float_of_bits w = record { negative = leb (2 ^ 31) w; magnitude = w % 2 ^ 31 }

unfoldable pub put_float : Float32 → Bytes
unfolding put
put_float x = put 4 (float_bits x)

-- A reader takes the bytes from the cursor on; `none` where the source returns false.
abbrev pub Reader : Type 0 → Type 0
Reader A = Bytes → Option (A × Bytes)

infixl 5 ◌>>=◌ ◌>>◌
unfoldable pub ◌>>=◌ : {A B : Type 0} → Reader A → (A → Reader B) → Reader B
◌>>=◌ m f bs = elim (m bs) [ none ↦ none | some (a, rest) ↦ f a rest ]

unfoldable pub ◌>>◌ : {B : Type 0} → Reader (Unit {0}) → Reader B → Reader B
unfolding ◌>>=◌
m >> k = m >>= λ _. k

unfoldable pub pure : {A : Type 0} → A → Reader A
pure a bs = some (a, bs)

unfoldable pub guard : Bool → Reader (Unit {0})
guard true bs = some (tt, bs)
guard false bs = none

unfoldable pub lift : {A : Type 0} → Option A → Reader A
lift none bs = none
lift (some a) bs = some (a, bs)

-- `take` of an unsigned value of `n` bytes.
unfoldable pub take_uint : ℕ → Reader ℕ
take_uint zero bs = some (0, bs)
take_uint (suc n) [] = none
take_uint (suc n) (b ∷ bs) = elim (take_uint n bs) [
  | none ↦ none
  | some (v, rest) ↦ some (b + 256 * v, rest)
]

unfoldable pub take_signed : Reader ℤ
unfolding ◌>>=◌ pure take_uint
take_signed = do w ← take_uint 8; pure (of_bits w)

unfoldable pub take_float : Reader Float32
unfolding ◌>>=◌ pure take_uint
take_float = do w ← take_uint 4; pure (float_of_bits w)

-- How many values `n` bytes have.
abbrev pub range_of : ℕ → ℕ
range_of zero = 1
range_of (suc n) = 256 * range_of n

-- The reader reads these bytes as `a`, whatever stands behind them.
pub record IsRead {A : Type 0} (m : Reader A) (bs : Bytes) (a : A) : Type 0 where
  pub reads : (rest : Bytes) → m (bs ++ rest) ≡ some (a, rest)

module _ {A B : Type 0} where
  pub bind-IsRead :
      {m : Reader A} (f : A → Reader B) {bs cs : Bytes} {a : A} {b : B}
      → IsRead m bs a
      → IsRead (f a) cs b
      → IsRead (m >>= f) (bs ++ cs) b
  unfolding ◌>>=◌
  bind-IsRead {m} f {bs} {cs} h k = record {
    reads = λ rest.
        ap (m >>= f) (append_assoc bs cs rest) ∙ rw (h.reads (cs ++ rest), ◌>>=◌) (k.reads rest);
  }

  -- At the end nothing more is read.
  pub bind_last-IsRead :
      {m : Reader A} (f : A → Reader B) {bs : Bytes} {a : A} {b : B}
      → IsRead m bs a
      → IsRead (f a) [] b
      → IsRead (m >>= f) bs b
  unfolding ◌>>=◌
  bind_last-IsRead f h k = record { reads = λ rest. rw (h.reads rest, ◌>>=◌) (k.reads rest) }

  pub lift-IsRead :
      {o : Option A} (f : A → Reader B) {bs : Bytes} {a : A} {b : B}
      → o ≡ some a
      → IsRead (f a) bs b
      → IsRead (lift o >>= f) bs b
  unfolding ◌>>=◌ lift
  lift-IsRead f e h = record { reads = λ rest. rw (e, lift) (h.reads rest) }

pub guard-IsRead :
    {B : Type 0} {t : Bool} {k : Reader B} {bs : Bytes} {b : B}
    → t ≡ true
    → IsRead k bs b
    → IsRead (guard t >> k) bs b
unfolding ◌>>◌ guard
guard-IsRead e h = record { reads = λ rest. rw (e, guard) (h.reads rest) }

pub pure-IsRead : {A : Type 0} {a b : A} → a ≡ b → IsRead (pure a) [] b
unfolding pure
pure-IsRead e = record { reads = λ rest. ap (λ x. some (x, rest)) e }

put-reads :
    (n v : ℕ) → v < range_of n → (rest : Bytes) → take_uint n (put n v ++ rest) ≡ some (v, rest)
unfolding take_uint put
put-reads zero v h rest = ground arith
put-reads (suc n) v h rest =
    rw (put-reads n (v / 256) (omega (arith, h)) rest) (ap (λ w. some (w, rest)) (omega arith))

pub put-IsRead : (n v : ℕ) → v < range_of n → IsRead (take_uint n) (put n v) v
put-IsRead n v h = record { reads = put-reads n v h }

-- An `int64_t`.
abbrev pub IsInt64 : ℤ → Type 0
IsInt64 z = (negsuc (2 ^ 63 - 1) ≤ℤ z) × (z <ℤ pos (2 ^ 63))

of_bits-to_bits : (z : ℤ) → IsInt64 z → of_bits (to_bits z) ≡ z
of_bits-to_bits (pos n) h = ground (arith, h)
of_bits-to_bits (negsuc n) h = ground (arith, h)

to_bits-lt : (z : ℤ) → to_bits z < 2 ^ 64
to_bits-lt (pos n) = omega arith
to_bits-lt (negsuc n) = omega arith

pub put_signed-IsRead : (z : ℤ) → IsInt64 z → IsRead take_signed (put_signed z) z
unfolding take_signed put_signed
put_signed-IsRead z h =
    bind_last-IsRead _ (put-IsRead 8 (to_bits z) (to_bits-lt z)) (pure-IsRead (of_bits-to_bits z h))

float_of_bits-float_bits : (x : Float32) → x.magnitude < 2 ^ 31 → float_of_bits (float_bits x) ≡ x
float_of_bits-float_bits x h = ground (arith, h)

float_bits-lt : (x : Float32) → x.magnitude < 2 ^ 31 → float_bits x < 2 ^ 32
float_bits-lt x h = ground (arith, h)

pub put_float-IsRead : (x : Float32) → x.magnitude < 2 ^ 31 → IsRead take_float (put_float x) x
unfolding take_float put_float
put_float-IsRead x h =
    bind_last-IsRead _ (put-IsRead 4 (float_bits x) (float_bits-lt x h))
      (pure-IsRead (float_of_bits-float_bits x h))
