-- ===== src/Scenarios/Text/Numbers.antt =====
-- fscanf with %d and %hd on the bytes of a text, and numbers as they are written in decimal.
use rcanopus_membership.Prelude.{
  ℕ, zero, suc, ◌+◌, ◌-◌, ◌*◌, ◌/◌, ◌%◌, ◌≤◌, ◌<◌, ◌≡◌, refl, ◌∙◌, Bool, true, false, ◌&&◌, ltb,
  leb, ◌==◌, if◌then◌else◌, Bool-cases, inl, inr, List, [], ◌∷◌, Option, none, some, arith,
}
use rcanopus_membership.Prelude.Int.{IsInt, ℤ, pos, negsuc}

unfoldable pub skip_spaces : List ℕ → List ℕ
skip_spaces [] = []
skip_spaces (c ∷ f) = let rest = skip_spaces f in if c == 32 then rest else c ∷ f

unfoldable pub scan_digits : ℕ → List ℕ → ℕ × List ℕ
scan_digits n [] = (n, [])
scan_digits n (c ∷ f) =
    let rest = scan_digits (n * 10 + (c - 48)) f in
    if leb 48 c && ltb c 58 then rest else (n, c ∷ f)

-- A number has a digit.
unfoldable pub scan_nat : List ℕ → Option (ℕ × List ℕ)
scan_nat [] = none
scan_nat (c ∷ f) = if leb 48 c && ltb c 58 then some (scan_digits (c - 48) f) else none

-- The int that a number stands for, behind a minus sign or not.
abbrev signed : ℕ → Bool → Option ℤ
signed n false = if ltb n 2147483648 then some (pos n) else none
signed zero true = some (pos 0)
signed (suc n) true = if ltb n 2147483648 then some (negsuc n) else none

abbrev with_sign : Bool → Option (ℕ × List ℕ) → Option (ℤ × List ℕ)
with_sign minus none = none
with_sign minus (some (n, f)) = elim (signed n minus) [ none ↦ none | some z ↦ some (z, f) ]

unfoldable scan_signed : List ℕ → Option (ℤ × List ℕ)
unfolding scan_nat scan_digits
scan_signed [] = none
scan_signed (c ∷ f) =
    if c == 45 then with_sign true (scan_nat f) else with_sign false (scan_nat (c ∷ f))

unfoldable pub scan_int : List ℕ → Option (ℤ × List ℕ)
unfolding skip_spaces scan_signed scan_nat scan_digits
scan_int f = scan_signed (skip_spaces f)

abbrev tens : ℕ → ℕ
tens zero = 1
tens (suc k) = 10 * tens k

-- The digits of a number below the fuel, in front of a text.
unfoldable pub show_nat : ℕ → ℕ → List ℕ → List ℕ
show_nat zero n f = (48 + n) ∷ f
show_nat (suc k) n f =
    let more = show_nat k (n / 10) ((48 + n % 10) ∷ f) in if ltb n 10 then (48 + n) ∷ f else more

abbrev pub show_int : ℤ → List ℕ → List ℕ
show_int (pos n) f = show_nat (suc n) n f
show_int (negsuc n) f = 45 ∷ show_nat (suc (suc n)) (suc n) f

tenth : (n p : ℕ) → n < 10 * p → n / 10 < p
tenth n p h = omega arith

below_power : (n : ℕ) → n < tens n
below_power zero = omega arith
below_power (suc n) = let below = below_power n in omega arith

abbrev pub IsSeparated : List ℕ → Type 0
IsSeparated [] = Unit
IsSeparated (c ∷ f) = c ≡ 32

scan_digits-end : (n : ℕ) (f : List ℕ) → IsSeparated f → scan_digits n f ≡ (n, f)
unfolding scan_digits
scan_digits-end n [] h = refl
scan_digits-end n (c ∷ f) h = rw h refl

pub scan_nat-show :
    (k n : ℕ) (f : List ℕ) → n < tens k → scan_nat (show_nat k n f) ≡ some (scan_digits n f)
unfolding scan_nat show_nat scan_digits
scan_nat-show zero n f h = ground arith
scan_nat-show (suc k) n f h = elim (Bool-cases (ltb n 10)) [
  | inl small ↦ rw small (ground arith)
  | inr large ↦ rw large (
      let shorter = tenth n (tens k) h in
      let back : n / 10 * 10 + (48 + n % 10 - 48) ≡ n = omega arith in
      let digit : (leb 48 (48 + n % 10) && ltb (48 + n % 10) 58) ≡ true = ground arith in
      scan_nat-show k (n / 10) ((48 + n % 10) ∷ f) shorter ∙ rw (digit, back) refl)
]

pub show_nat-first :
    (k n : ℕ) (f : List ℕ)
    → n < tens k
    → (c : ℕ) × (g : List ℕ) × (show_nat k n f ≡ c ∷ g) × (48 ≤ c)
unfolding show_nat
show_nat-first zero n f h = (48 + n, f, refl, omega arith)
show_nat-first (suc k) n f h = elim (Bool-cases (ltb n 10)) [
  | inl small ↦ rw small (48 + n, f, refl, omega arith)
  | inr large ↦
      rw large
        (let shorter = tenth n (tens k) h in show_nat-first k (n / 10) ((48 + n % 10) ∷ f) shorter)
]

pub scan_nat-back :
    (k n : ℕ) (f : List ℕ) → n < tens k → IsSeparated f → scan_nat (show_nat k n f) ≡ some (n, f)
scan_nat-back k n f h end = scan_nat-show k n f h ∙ rw (scan_digits-end n f end) refl

-- A number at the start of a text is read without a sign.
scan_int-digit :
    (f g : List ℕ) (c : ℕ) → f ≡ c ∷ g → 48 ≤ c → scan_int (32 ∷ f) ≡ with_sign false (scan_nat f)
unfolding scan_int skip_spaces scan_signed
scan_int-digit f g c e large =
    let no_space : (c == 32) ≡ false = ground arith in
    let no_sign : (c == 45) ≡ false = ground arith in rw (e, no_space, no_sign) refl

pub scan_int-show :
    (z : ℤ) (f : List ℕ) → IsInt z → IsSeparated f → scan_int (32 ∷ show_int z f) ≡ some (z, f)
unfolding scan_int skip_spaces scan_signed
scan_int-show (pos n) f h end =
    let (c, g, first, digit) = show_nat-first (suc n) n f (omega (arith, below_power n)) in
    scan_int-digit (show_nat (suc n) n f) g c first digit
    ∙ rw (scan_nat-back (suc n) n f (omega (arith, below_power n)) end) (ground (arith, h))
scan_int-show (negsuc n) f h end =
    rw (scan_nat-back (suc (suc n)) (suc n) f (omega (arith, below_power (suc n))) end)
      (ground (arith, h))

with_sign-IsInt :
    (minus : Bool) (r : Option (ℕ × List ℕ)) (f' : List ℕ) (z : ℤ)
    → with_sign minus r ≡ some (z, f')
    → IsInt z
with_sign-IsInt minus none f' z e = ground arith
with_sign-IsInt false (some (n, f)) f' z e = ground arith
with_sign-IsInt true (some (zero, f)) f' z e = ground arith
with_sign-IsInt true (some (suc n, f)) f' z e = ground arith

scan_signed-IsInt : (f f' : List ℕ) (z : ℤ) → scan_signed f ≡ some (z, f') → IsInt z
unfolding scan_signed
scan_signed-IsInt [] f' z e = ground arith
scan_signed-IsInt (c ∷ f) f' z e = elim (Bool-cases (c == 45)) [
  | inl minus ↦ with_sign-IsInt true (scan_nat f) f' z (ground arith)
  | inr digit ↦ with_sign-IsInt false (scan_nat (c ∷ f)) f' z (ground arith)
]

pub scan_int-IsInt : (f f' : List ℕ) (z : ℤ) → scan_int f ≡ some (z, f') → IsInt z
unfolding scan_int
scan_int-IsInt f f' z e = scan_signed-IsInt (skip_spaces f) f' z e

-- The 16 bits of a short.
abbrev short_bits : Option (ℤ × List ℕ) → Option (ℕ × List ℕ)
short_bits none = none
short_bits (some (pos n, f)) = if ltb n 32768 then some (n, f) else none
short_bits (some (negsuc n, f)) = if ltb n 32768 then some (65535 - n, f) else none

unfoldable pub scan_short : List ℕ → Option (ℕ × List ℕ)
unfolding scan_int
scan_short f = short_bits (scan_int f)

abbrev pub of_bits : ℕ → ℤ
of_bits n = if ltb n 32768 then pos n else negsuc (65535 - n)

pub scan_short-show :
    (n : ℕ) (f : List ℕ)
    → n < 65536
    → IsSeparated f
    → scan_short (32 ∷ show_int (of_bits n) f) ≡ some (n, f)
unfolding scan_short
scan_short-show n f h end = elim (Bool-cases (ltb n 32768)) [
  | inl positive ↦ rw positive (rw (scan_int-show (pos n) f (ground arith) end) (rw positive refl))
  | inr negative ↦
      rw negative (rw (scan_int-show (negsuc (65535 - n)) f (omega arith) end) (ground arith))
]
