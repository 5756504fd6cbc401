-- ===== src/Outcome.antt =====
-- exception.h: how a call of the program ends, and the DebugThrow macros. `failfast` says whether
-- the program is built with DEBUG_FAILFAST, as the Makefile does by default.
use rcanopus_membership.Prelude.{Bool, true, false, ◌≡◌, refl, if◌then◌else◌}

-- The reason codes that the modelled code throws.
pub data Exception : Type 0 where
  input_format exception_send exception_recv exception_socket_opt : Exception
  invalid_version invalid_type unexpected verifier_not_set preprepare_missing : Exception
  invalid_request_type cycle_not_in_round3 unexpected_cycle_state no_envoy_selected : Exception

-- `undefined` is undefined behaviour: an access out of bounds, through a null pointer, or of a
-- message of another layout.
pub data Outcome {ℓ} (A : Type ℓ) : Type ℓ where
  done : A → Outcome A
  thrown : Exception → Outcome A
  fail_fast : Outcome A
  undefined : Outcome A

infixl 5 ◌>>=◌ ◌>>◌
abbrev pub ◌>>=◌ {ℓ κ} : {A : Type ℓ} {B : Type κ} → Outcome A → (A → Outcome B) → Outcome B
done a >>= f = f a
thrown e >>= f = thrown e
fail_fast >>= f = fail_fast
undefined >>= f = undefined

abbrev pub ◌>>◌ {ℓ} : {B : Type ℓ} → Outcome (Unit {0}) → Outcome B → Outcome B
m >> k = m >>= λ _. k

-- DebugThrow(flag).
abbrev pub debug_throw : Bool → Bool → Outcome (Unit {0})
debug_throw failfast true = done tt
debug_throw true false = fail_fast
debug_throw false false = done tt

-- DebugThrowElseReturn(flag, res), with the rest of the function.
abbrev pub debug_throw_else_return {ℓ} : {A : Type ℓ} → Bool → Bool → A → Outcome A → Outcome A
debug_throw_else_return failfast true res rest = rest
debug_throw_else_return true false res rest = fail_fast
debug_throw_else_return false false res rest = done res

-- A postcondition of the calls that return.
abbrev pub Ensures {ℓ κ} : {A : Type ℓ} → (A → Type κ) → Outcome A → Type κ
Ensures P (done a) = P a
Ensures P (thrown e) = Unit
Ensures P fail_fast = Unit
Ensures P undefined = Unit

pub Ensures->>= {ℓ κ μ ν} :
    {A : Type ℓ} {B : Type κ} (P : A → Type μ) (Q : B → Type ν) (m : Outcome A) (f : A → Outcome B)
    → Ensures P m
    → ((a : A) → P a → Ensures Q (f a))
    → Ensures Q (m >>= f)
Ensures->>= P Q (done a) f h k = k a h
Ensures->>= P Q (thrown e) f h k = tt
Ensures->>= P Q fail_fast f h k = tt
Ensures->>= P Q undefined f h k = tt

pub Ensures-mono {ℓ κ μ} :
    {A : Type ℓ} (P : A → Type κ) (Q : A → Type μ) (m : Outcome A)
    → Ensures P m
    → ((a : A) → P a → Q a)
    → Ensures Q m
Ensures-mono P Q (done a) h k = k a h
Ensures-mono P Q (thrown e) h k = tt
Ensures-mono P Q fail_fast h k = tt
Ensures-mono P Q undefined h k = tt

-- What holds of a call without a condition on its result.
pub Ensures-all {ℓ κ} :
    {A : Type ℓ} (P : A → Type κ) (m : Outcome A) → ((a : A) → P a) → Ensures P m
Ensures-all P (done a) k = k a
Ensures-all P (thrown e) k = tt
Ensures-all P fail_fast k = tt
Ensures-all P undefined k = tt

-- A part whose result is known by its equation.
pub Ensures->>=_eq {ℓ κ μ} :
    {A : Type ℓ} {B : Type κ} (Q : B → Type μ) (m : Outcome A) (f : A → Outcome B)
    → ((a : A) → m ≡ done a → Ensures Q (f a))
    → Ensures Q (m >>= f)
Ensures->>=_eq Q (done a) f k = k a refl
Ensures->>=_eq Q (thrown e) f k = tt
Ensures->>=_eq Q fail_fast f k = tt
Ensures->>=_eq Q undefined f k = tt

-- A check and what follows it.
pub Ensures-debug_throw {ℓ κ} :
    {A : Type ℓ} (P : A → Type κ) (failfast flag : Bool) (rest : Outcome A)
    → Ensures P rest
    → Ensures P (debug_throw failfast flag >> rest)
Ensures-debug_throw P failfast true rest h = h
Ensures-debug_throw P true false rest h = tt
Ensures-debug_throw P false false rest h = h

pub Ensures-debug_throw_else_return {ℓ κ} :
    {A : Type ℓ} (P : A → Type κ) (failfast flag : Bool) (res : A) (rest : Outcome A)
    → P res
    → (flag ≡ true → Ensures P rest)
    → Ensures P (debug_throw_else_return failfast flag res rest)
Ensures-debug_throw_else_return P failfast true res rest r h = h refl
Ensures-debug_throw_else_return P true false res rest r h = tt
Ensures-debug_throw_else_return P false false res rest r h = r

pub Ensures-if {ℓ κ} :
    {A : Type ℓ} (P : A → Type κ) (test : Bool) (yea nay : Outcome A)
    → (test ≡ true → Ensures P yea)
    → (test ≡ false → Ensures P nay)
    → Ensures P (if test then yea else nay)
Ensures-if P true yea nay h k = h refl
Ensures-if P false yea nay h k = k refl

-- A part whose result does not matter.
pub Ensures->>=_any {ℓ κ μ} :
    {A : Type ℓ} {B : Type κ} (Q : B → Type μ) (m : Outcome A) (f : A → Outcome B)
    → ((a : A) → Ensures Q (f a))
    → Ensures Q (m >>= f)
Ensures->>=_any Q (done a) f k = k a
Ensures->>=_any Q (thrown e) f k = tt
Ensures->>=_any Q fail_fast f k = tt
Ensures->>=_any Q undefined f k = tt

-- The call returns a value.
abbrev pub Returns {ℓ} : {A : Type ℓ} → Outcome A → Type 0
Returns (done a) = Unit
Returns (thrown e) = ⊥
Returns fail_fast = ⊥
Returns undefined = ⊥

pub Returns-Ensures {ℓ κ} :
    {A : Type ℓ} (P : A → Type κ) (m : Outcome A)
    → Returns m
    → Ensures P m
    → (a : A) × (m ≡ done a) × P a
Returns-Ensures P (done a) r h = (a, refl, h)
Returns-Ensures P (thrown e) r h = absurd r
Returns-Ensures P fail_fast r h = absurd r
Returns-Ensures P undefined r h = absurd r

pub Returns->>= {ℓ κ} :
    {A : Type ℓ} {B : Type κ} (m : Outcome A) (f : A → Outcome B)
    → Returns m
    → ((a : A) → m ≡ done a → Returns (f a))
    → Returns (m >>= f)
Returns->>= (done a) f r k = k a refl
Returns->>= (thrown e) f r k = absurd r
Returns->>= fail_fast f r k = absurd r
Returns->>= undefined f r k = absurd r

pub Returns-debug_throw {ℓ} :
    {A : Type ℓ} (flag : Bool) (rest : Outcome A)
    → Returns rest
    → Returns (debug_throw false flag >> rest)
Returns-debug_throw true rest r = r
Returns-debug_throw false rest r = r

pub Returns-debug_throw_else_return {ℓ} :
    {A : Type ℓ} (flag : Bool) (res : A) (rest : Outcome A)
    → (flag ≡ true → Returns rest)
    → Returns (debug_throw_else_return false flag res rest)
Returns-debug_throw_else_return true res rest r = r refl
Returns-debug_throw_else_return false res rest r = tt

pub Returns-if {ℓ} :
    {A : Type ℓ} (test : Bool) (yea nay : Outcome A)
    → (test ≡ true → Returns yea)
    → (test ≡ false → Returns nay)
    → Returns (if test then yea else nay)
Returns-if true yea nay h k = h refl
Returns-if false yea nay h k = k refl
