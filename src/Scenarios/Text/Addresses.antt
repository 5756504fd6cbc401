-- ===== src/Scenarios/Text/Addresses.antt =====
-- fscanf with %40s and inet_aton on the bytes of a text, and addresses as they are written in dotted form.
use rcanopus_membership.Prelude.{
  ℕ, zero, suc, ◌+◌, ◌*◌, ◌/◌, ◌%◌, ◌≤◌, ◌<◌, ◌≡◌, ◌≢◌, refl, sym, ◌∙◌, false, ◌&&◌, ltb, ◌==◌,
  if◌then◌else◌, Bool-cases, inl, inr, List, [], ◌∷◌, ◌++◌, nil≢cons, Option, none, some, length,
  arith,
}
use rcanopus_membership.Scenarios.Text.Numbers.{
  IsSeparated, scan_nat, scan_digits, show_nat, skip_spaces, show_nat-first, scan_nat-show,
  scan_nat-back,
}

-- The characters before the next space, as many as there is room for.
unfoldable take_word : ℕ → List ℕ → List ℕ × List ℕ
take_word zero f = ([], f)
take_word (suc k) [] = ([], [])
take_word (suc k) (c ∷ f) =
    let (word, rest) = take_word k f in if c == 32 then ([], c ∷ f) else (c ∷ word, rest)

abbrev nonempty : List ℕ × List ℕ → Option (List ℕ × List ℕ)
nonempty ([], f) = none
nonempty (c ∷ word, f) = some (c ∷ word, f)

unfoldable pub scan_word : List ℕ → Option (List ℕ × List ℕ)
unfolding skip_spaces take_word
scan_word f = nonempty (take_word 40 (skip_spaces f))

abbrev IsWord : List ℕ → Type 0
IsWord [] = Unit
IsWord (c ∷ word) = ((c == 32) ≡ false) × IsWord word

take_word-append :
    (k : ℕ) (word f : List ℕ)
    → IsWord word
    → length word < k
    → IsSeparated f
    → take_word k (word ++ f) ≡ (word, f)
unfolding take_word
take_word-append zero word f v h end = absurd (omega arith)
take_word-append (suc k) [] [] v h end = refl
take_word-append (suc k) [] (c ∷ f) v h end = rw end refl
take_word-append (suc k) (c ∷ word) f v h end =
    rw (v.0, take_word-append k word f v.1 (omega arith) end) refl

scan_word-append :
    (word f : List ℕ)
    → IsWord word
    → length word < 40
    → word ≢ []
    → IsSeparated f
    → scan_word (32 ∷ word ++ f) ≡ some (word, f)
unfolding scan_word skip_spaces
scan_word-append [] f v h some_there end = absurd (some_there refl)
scan_word-append (c ∷ word) f v h some_there end =
    rw (v.0, take_word-append 40 (c ∷ word) f v (omega arith) end) refl

show_nat-IsWord : (k n : ℕ) (f : List ℕ) → IsWord f → IsWord (show_nat k n f)
unfolding show_nat
show_nat-IsWord zero n f v = (ground arith, v)
show_nat-IsWord (suc k) n f v = elim (Bool-cases (ltb n 10)) [
  | inl small ↦ rw small (ground arith, v)
  | inr large ↦ rw large (show_nat-IsWord k (n / 10) ((48 + n % 10) ∷ f) (ground arith, v))
]

length-show_nat : (k n : ℕ) (f : List ℕ) → length (show_nat k n f) ≤ k + 1 + length f
unfolding show_nat
length-show_nat zero n f = omega arith
length-show_nat (suc k) n f = elim (Bool-cases (ltb n 10)) [
  | inl small ↦ rw small (omega arith)
  | inr large ↦ rw large (omega (arith, length-show_nat k (n / 10) ((48 + n % 10) ∷ f)))
]

-- Four numbers with dots between them. The first is the lowest byte, on a host with the low byte first.
abbrev from_fourth : ℕ → List ℕ
from_fourth a = show_nat 3 (a / 16777216) []

abbrev from_third : ℕ → List ℕ
from_third a = show_nat 3 (a / 65536 % 256) (46 ∷ from_fourth a)

abbrev from_second : ℕ → List ℕ
from_second a = show_nat 3 (a / 256 % 256) (46 ∷ from_third a)

abbrev pub dotted : ℕ → List ℕ
dotted a = show_nat 3 (a % 256) (46 ∷ from_second a)

dotted-IsWord : (a : ℕ) → IsWord (dotted a)
dotted-IsWord a =
    let fourth = show_nat-IsWord 3 (a / 16777216) [] tt in
    let third = show_nat-IsWord 3 (a / 65536 % 256) (46 ∷ from_fourth a) (refl, fourth) in
    let second = show_nat-IsWord 3 (a / 256 % 256) (46 ∷ from_third a) (refl, third) in
    show_nat-IsWord 3 (a % 256) (46 ∷ from_second a) (refl, second)

length-dotted : (a : ℕ) → length (dotted a) < 40
length-dotted a =
    let fourth = length-show_nat 3 (a / 16777216) [] in
    let third = length-show_nat 3 (a / 65536 % 256) (46 ∷ from_fourth a) in
    let second = length-show_nat 3 (a / 256 % 256) (46 ∷ from_third a) in
    let first = length-show_nat 3 (a % 256) (46 ∷ from_second a) in omega arith

-- A byte, and a dot behind it that is not read.
abbrev dot : Option (ℕ × List ℕ) → Option (ℕ × List ℕ)
dot none = none
dot (some (n, [])) = none
dot (some (n, c ∷ f)) = if (c == 46) && ltb n 256 then some (n, f) else none

abbrev last : Option (ℕ × List ℕ) → Option ℕ
last none = none
last (some (n, [])) = if ltb n 256 then some n else none
last (some (n, _ ∷ _)) = none

unfoldable put_together : ℕ → ℕ → ℕ → Option ℕ → Option ℕ
put_together n0 n1 n2 none = none
put_together n0 n1 n2 (some n3) = some (n0 + n1 * 256 + n2 * 65536 + n3 * 16777216)

unfoldable behind_third : ℕ → ℕ → Option (ℕ × List ℕ) → Option ℕ
unfolding put_together scan_nat
behind_third n0 n1 none = none
behind_third n0 n1 (some (n2, f)) = put_together n0 n1 n2 (last (scan_nat f))

unfoldable behind_second : ℕ → Option (ℕ × List ℕ) → Option ℕ
unfolding behind_third scan_nat
behind_second n0 none = none
behind_second n0 (some (n1, f)) = behind_third n0 n1 (dot (scan_nat f))

unfoldable behind_first : Option (ℕ × List ℕ) → Option ℕ
unfolding behind_second scan_nat
behind_first none = none
behind_first (some (n0, f)) = behind_second n0 (dot (scan_nat f))

unfoldable pub inet_aton : List ℕ → Option ℕ
unfolding behind_first behind_second behind_third put_together scan_nat scan_digits
inet_aton word = behind_first (dot (scan_nat word))

scan_digits-dot : (n : ℕ) (f : List ℕ) → scan_digits n (46 ∷ f) ≡ (n, 46 ∷ f)
unfolding scan_digits
scan_digits-dot n f = refl

dot-back : (n : ℕ) (f : List ℕ) → n < 256 → dot (scan_nat (show_nat 3 n (46 ∷ f))) ≡ some (n, f)
dot-back n f h = rw (scan_nat-show 3 n (46 ∷ f) (omega arith), scan_digits-dot n f) (ground arith)

last-back : (n : ℕ) → n < 256 → last (scan_nat (show_nat 3 n [])) ≡ some n
last-back n h = rw (scan_nat-back 3 n [] (omega arith) tt) (ground arith)

pub inet_aton-dotted : (a : ℕ) → a < 4294967296 → inet_aton (dotted a) ≡ some a
unfolding inet_aton behind_first behind_second behind_third put_together
inet_aton-dotted a h =
    let total : a % 256 + a / 256 % 256 * 256 + a / 65536 % 256 * 65536 + a / 16777216 * 16777216
        ≡ a =
      omega arith in
    rw
      (
        dot-back (a % 256) (from_second a) (omega arith),
        dot-back (a / 256 % 256) (from_third a) (omega arith),
        dot-back (a / 65536 % 256) (from_fourth a) (omega arith),
        last-back (a / 16777216) (omega arith),
        total,
      )
      refl

dotted_there : (a : ℕ) → dotted a ≢ []
dotted_there a e =
    let (c, word, cons, _) = show_nat-first 3 (a % 256) (46 ∷ from_second a) (omega arith) in
    nil≢cons (sym e ∙ cons)

pub scan_word-dotted :
    (a : ℕ) (f : List ℕ) → IsSeparated f → scan_word (32 ∷ dotted a ++ f) ≡ some (dotted a, f)
scan_word-dotted a f end =
    scan_word-append (dotted a) f (dotted-IsWord a) (length-dotted a) (dotted_there a) end
