-- ===== src/Prelude/Number.antt =====
-- Numbers in texts: C's strtol in base ten and atoi, with a `long` of 64 bits and an `int` of 32.
use Prim.Native.Nat.{ℕ, zero, suc, ◌+◌, ◌-◌, ◌*◌, ◌/◌, ◌%◌, ◌^◌, ◌≤◌, ◌<◌}
use mathlib.Core.Path.{◌≡◌, refl, ◌∙◌, ap}
use mathlib.Core.Logic.{inl, inr}
use mathlib.Core.Bool.{Bool, true, false, ◌&&◌, ◌||◌}
use mathlib.Core.List.{[], ◌∷◌, ◌++◌}
use native.Mathlib.Omega.{arith}
use mpdcron.Prelude.Tests.{ltb, leb, ◌==◌, if◌then◌else◌, Bool-cases}
use mpdcron.Prelude.Lists.{All}
use mpdcron.Prelude.Int.{ℤ, pos, negsuc}
use mpdcron.Prelude.Text.{Bytes, decimal_digits, decimal, decimal_ℤ}

-- isspace of the C locale
abbrev pub c_isspace : ℕ → Bool
c_isspace c = c == 32 || (leb 9 c && leb c 13)

abbrev pub is_digit : ℕ → Bool
is_digit c = leb b'0' c && leb c b'9'

unfoldable pub skip_space : Bytes → Bytes
skip_space [] = []
skip_space (c ∷ s) = let rest = skip_space s in if c_isspace c then rest else c ∷ s

-- The digits in front of a text as a number behind `n`, and the rest of the text.
unfoldable pub read_digits : ℕ → Bytes → ℕ × Bytes
read_digits n [] = (n, [])
read_digits n (c ∷ s) =
    let rest = read_digits (n * 10 + (c - b'0')) s in if is_digit c then rest else (n, c ∷ s)

abbrev pub starts_digit : Bytes → Bool
starts_digit [] = false
starts_digit (c ∷ s) = is_digit c

-- Whether there is a minus sign, and what stands behind the sign.
abbrev pub read_sign : Bytes → Bool × Bytes
read_sign [] = (false, [])
read_sign (c ∷ s) =
    if c == b'-' then (true, s) else if c == b'+' then (false, s) else (false, c ∷ s)

-- What strtol returns: the value, what `*endptr` points at, whether there were digits, and whether
-- errno is set to ERANGE.
pub record Strtol : Type 0 where
  pub value : ℤ
  pub rest : Bytes
  pub converted : Bool
  pub erange : Bool

abbrev pub long_limit : ℕ
long_limit = 2 ^ 63

abbrev pub signed : Bool → ℕ → ℤ
signed false n = pos n
signed true zero = pos 0
signed true (suc n) = negsuc n

-- The value, held within the range of a long.
unfoldable pub ranged : Bool → ℕ → Bytes → Strtol
ranged minus n rest =
    let limit = if minus then long_limit else long_limit - 1 in
    if ltb limit n
    then record { value = signed minus limit; rest = rest; converted = true; erange = true }
    else record { value = signed minus n; rest = rest; converted = true; erange = false }

unfoldable pub strtol : Bytes → Strtol
unfolding skip_space read_digits ranged
strtol s =
    let (minus, digits) = read_sign (skip_space s) in
    let (n, rest) = read_digits 0 digits in
    if starts_digit digits
    then ranged minus n rest
    else record { value = pos 0; rest = s; converted = false; erange = false }

-- The conversion of a long to an int.
abbrev pub to_int : ℤ → ℤ
to_int (pos n) = let m = n % 2 ^ 32 in if ltb m (2 ^ 31) then pos m else negsuc (2 ^ 32 - 1 - m)
to_int (negsuc n) = let m = n % 2 ^ 32 in if ltb m (2 ^ 31) then negsuc m else pos (2 ^ 32 - 1 - m)

unfoldable pub atoi : Bytes → ℤ
unfolding strtol
atoi s = to_int (strtol s).value

-- The values of an int.
abbrev pub IsInt : ℤ → Type 0
IsInt (pos n) = n < 2 ^ 31
IsInt (negsuc n) = n < 2 ^ 31

read_digits-decimal_digits :
    (fuel n : ℕ) (acc : Bytes)
    → n < fuel
    → read_digits 0 (decimal_digits fuel n acc) ≡ read_digits n acc
unfolding read_digits decimal_digits
read_digits-decimal_digits zero n acc h = absurd (omega arith)
read_digits-decimal_digits (suc fuel) n acc h =
    ground (arith, read_digits-decimal_digits fuel (n / 10) ((b'0' + n % 10) ∷ acc))

decimal_digits-starts_digit :
    (fuel n : ℕ) (acc : Bytes) → n < fuel → starts_digit (decimal_digits fuel n acc) ≡ true
unfolding decimal_digits
decimal_digits-starts_digit zero n acc h = absurd (omega arith)
decimal_digits-starts_digit (suc fuel) n acc h =
    ground (arith, decimal_digits-starts_digit fuel (n / 10) ((b'0' + n % 10) ∷ acc))

-- A text that begins with a digit has no space and no sign to skip.
strtol-digits :
    (s : Bytes)
    → starts_digit s ≡ true
    → strtol s ≡ ranged false (read_digits 0 s).0 (read_digits 0 s).1
unfolding strtol skip_space
strtol-digits [] h = cc
strtol-digits (c ∷ s) h = ground arith

strtol-minus :
    (s : Bytes)
    → starts_digit s ≡ true
    → strtol (b'-' ∷ s) ≡ ranged true (read_digits 0 s).0 (read_digits 0 s).1
unfolding strtol skip_space
strtol-minus s h = ground arith

decimal-starts_digit : (n : ℕ) → starts_digit (decimal n) ≡ true
unfolding decimal
decimal-starts_digit n = decimal_digits-starts_digit (n + 1) n [] (omega arith)

read_digits-decimal : (n : ℕ) → read_digits 0 (decimal n) ≡ (n, [])
unfolding decimal read_digits
read_digits-decimal n = read_digits-decimal_digits (n + 1) n [] (omega arith)

ranged-int :
    (minus : Bool) (n : ℕ) (rest : Bytes)
    → n ≤ 2 ^ 31
    → ranged minus n rest
      ≡ record { value = signed minus n; rest = rest; converted = true; erange = false }
unfolding ranged
ranged-int true n rest h = ground arith
ranged-int false n rest h = ground arith

signed-suc : (n : ℕ) → signed true (n + 1) ≡ negsuc n
signed-suc n = let e : n + 1 ≡ suc n = omega arith in ap (signed true) e

-- An int that was printed is read back, with nothing left over.
pub strtol-decimal_ℤ :
    (z : ℤ)
    → IsInt z
    → strtol (decimal_ℤ z) ≡ record { value = z; rest = []; converted = true; erange = false }
unfolding decimal_ℤ
strtol-decimal_ℤ (pos n) h =
    strtol-digits (decimal n) (decimal-starts_digit n)
    ∙ ap (λ (p : ℕ × Bytes). ranged false p.0 p.1) (read_digits-decimal n)
    ∙ ranged-int false n [] (omega arith)
strtol-decimal_ℤ (negsuc n) h =
    strtol-minus (decimal (n + 1)) (decimal-starts_digit (n + 1))
    ∙ ap (λ (p : ℕ × Bytes). ranged true p.0 p.1) (read_digits-decimal (n + 1))
    ∙ ranged-int true (n + 1) [] (omega arith)
    ∙ ap (λ (z : ℤ). record { value = z; rest = []; converted = true; erange = false })
        (signed-suc n)

pub to_int-IsInt : (z : ℤ) → IsInt z → to_int z ≡ z
to_int-IsInt (pos n) h = ground arith
to_int-IsInt (negsuc n) h = ground arith

pub atoi-decimal_ℤ : (z : ℤ) → IsInt z → atoi (decimal_ℤ z) ≡ z
unfolding atoi
atoi-decimal_ℤ z h = ap (λ (r : Strtol). to_int r.value) (strtol-decimal_ℤ z h) ∙ to_int-IsInt z h

-- Digits before other text.
decimal_digits-append :
    (fuel n : ℕ) (acc rest : Bytes)
    → decimal_digits fuel n acc ++ rest ≡ decimal_digits fuel n (acc ++ rest)
unfolding decimal_digits
decimal_digits-append zero n acc rest = refl
decimal_digits-append (suc fuel) n acc rest =
    ground (arith, decimal_digits-append fuel (n / 10) ((b'0' + n % 10) ∷ acc) rest)

read_digits-stop :
    (n : ℕ) (rest : Bytes) → starts_digit rest ≡ false → read_digits n rest ≡ (n, rest)
unfolding read_digits
read_digits-stop n [] h = refl
read_digits-stop n (c ∷ rest) h = rw (read_digits, h)

-- A number in front of a text that does not begin with a digit.
pub strtol-decimal-append :
    (n : ℕ) (rest : Bytes)
    → n < 2 ^ 31
    → starts_digit rest ≡ false
    → strtol (decimal n ++ rest)
      ≡ record { value = pos n; rest = rest; converted = true; erange = false }
unfolding decimal
strtol-decimal-append n rest h stop =
    ap strtol (decimal_digits-append (n + 1) n [] rest)
    ∙ strtol-digits (decimal_digits (n + 1) n rest)
        (decimal_digits-starts_digit (n + 1) n rest (omega arith))
    ∙ ap (λ (p : ℕ × Bytes). ranged false p.0 p.1)
        (read_digits-decimal_digits (n + 1) n rest (omega arith) ∙ read_digits-stop n rest stop)
    ∙ ranged-int false n rest (omega arith)

-- The digits of a number are digits.
decimal_digits-All :
    (fuel n : ℕ) (acc : Bytes)
    → All (λ c. is_digit c ≡ true) acc
    → All (λ c. is_digit c ≡ true) (decimal_digits fuel n acc)
unfolding decimal_digits
decimal_digits-All zero n acc h = h
decimal_digits-All (suc fuel) n acc h = elim (Bool-cases (ltb n 10)) [
  | inl small ↦ rw (decimal_digits, small) (digit n (ltb_lt n small), h)
  | inr big ↦
      rw (decimal_digits, big)
        (decimal_digits-All fuel (n / 10) ((b'0' + n % 10) ∷ acc) (digit (n % 10) (omega arith), h))
]
  where
    digit : (d : ℕ) → d < 10 → is_digit (b'0' + d) ≡ true
    digit d h = ground arith

    ltb_lt : (n : ℕ) → ltb n 10 ≡ true → n < 10
    ltb_lt n h = ground arith

pub decimal-All : (n : ℕ) → All (λ c. is_digit c ≡ true) (decimal n)
unfolding decimal
decimal-All n = decimal_digits-All (n + 1) n [] tt
