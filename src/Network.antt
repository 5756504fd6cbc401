-- ===== src/Network.antt =====
-- Several nodes that run together: the messages that they have sent, and sums over them.
use rcanopus_membership.Prelude.{
  ℕ, zero, suc, ◌+◌, ◌≤◌, ◌<◌, ◌≡◌, ◌==◌, ==_iff, if◌then◌else◌, ◌⊎◌, inl, inr, List, [], ◌∷◌, ◌++◌,
  arith, Bool-cases,
}
use rcanopus_membership.Message.{Message}
use rcanopus_membership.Manager.{ConnManager, QueueElement}

-- The nodes by their number. The send queue of each is what it has sent.
abbrev pub Nodes : Type 0
Nodes = ℕ → ConnManager

abbrev pub replace : Nodes → ℕ → ConnManager → Nodes
replace nodes i s j = if j == i then s else nodes j

pub replace_cases :
    (nodes : Nodes) (i : ℕ) (s : ConnManager) (j : ℕ)
    → ((j ≡ i) × (replace nodes i s j ≡ s)) ⊎ (replace nodes i s j ≡ nodes j)
replace_cases nodes i s j = elim (Bool-cases (j == i)) [
  | inl e ↦ inl ((==_iff j i).0 e, rw e)
  | inr ne ↦ inr (rw ne)
]

abbrev pub count_messages : (Message → ℕ) → List QueueElement → ℕ
count_messages f [] = 0
count_messages f (e ∷ rest) = f e.message + count_messages f rest

pub count_messages-append :
    (f : Message → ℕ) (xs ys : List QueueElement)
    → count_messages f (xs ++ ys) ≡ count_messages f xs + count_messages f ys
count_messages-append f [] ys = omega arith
count_messages-append f (x ∷ xs) ys = omega (arith, count_messages-append f xs ys)

abbrev pub sum_below : ℕ → (ℕ → ℕ) → ℕ
sum_below zero f = 0
sum_below (suc n) f = sum_below n f + f n

sum_below_le : (n : ℕ) (f : ℕ → ℕ) → ((i : ℕ) → i < n → f i ≤ 1) → sum_below n f ≤ n
sum_below_le zero f h = omega arith
sum_below_le (suc n) f h =
    omega (arith, sum_below_le n f (λ i l. h i (omega arith)), h n (omega arith))

-- A sum of zeros and ones that is as large as it can be has ones alone.
pub sum_below_all :
    (n : ℕ) (f : ℕ → ℕ)
    → ((i : ℕ) → i < n → f i ≤ 1)
    → n ≤ sum_below n f
    → (i : ℕ) → i < n
    → f i ≡ 1
sum_below_all zero f h all i l = absurd (omega arith)
sum_below_all (suc n) f h all i l =
    let below = λ (j : ℕ) (k : j < n). h j (omega arith) in
    let most = sum_below_le n f below in
    let last = h n (omega arith) in
    elim (Bool-cases (i == n)) [
      | inl e ↦ rw ((==_iff i n).0 e) (omega arith)
      | inr ne ↦ sum_below_all n f below (omega arith) i (ground arith)
    ]

pub sum_below_mono :
    (n : ℕ) (f g : ℕ → ℕ) → ((i : ℕ) → i < n → f i ≤ g i) → sum_below n f ≤ sum_below n g
sum_below_mono zero f g h = omega arith
sum_below_mono (suc n) f g h =
    omega (arith, sum_below_mono n f g (λ i l. h i (omega arith)), h n (omega arith))
