-- ===== src/Round2/Leader/Queue.antt =====
-- The priority queue of the messages that the leader has yet to propose.
use mathlib.Core.List.Perm
use mathlib.Core.List.{Perm}
use rcanopus_membership.Prelude.{ℕ, ◌≤◌, inl, inr, List, [], ◌∷◌, Bool-cases, arith}
use rcanopus_membership.Message.{MessageRound2Preprepare}
use rcanopus_membership.Round2.Leader.{cmp_request_type, pop_top}

-- No message of the list has a greater request type.
abbrev pub AllBelow : ℕ → List MessageRound2Preprepare → Type 0
AllBelow n [] = Unit
AllBelow n (x ∷ xs) = (x.request_type ≤ n) × AllBelow n xs

pop_top-ge :
    (x : MessageRound2Preprepare) (xs : List MessageRound2Preprepare)
    → x.request_type ≤ (pop_top x xs).0.request_type
unfolding pop_top
pop_top-ge x [] = omega arith
pop_top-ge x (y ∷ ys) = ground (arith, pop_top-ge x ys, pop_top-ge y ys)

pop_top-AllBelow :
    (x : MessageRound2Preprepare) (xs : List MessageRound2Preprepare)
    → AllBelow (pop_top x xs).0.request_type ((pop_top x xs).1)
unfolding pop_top
pop_top-AllBelow x [] = tt
pop_top-AllBelow x (y ∷ ys) =
    ground (arith, pop_top-AllBelow x ys, pop_top-AllBelow y ys, pop_top-ge x ys, pop_top-ge y ys)

pop_top-Perm :
    (x : MessageRound2Preprepare) (xs : List MessageRound2Preprepare)
    → Perm (x ∷ xs) ((pop_top x xs).0 ∷ (pop_top x xs).1)
unfolding pop_top
pop_top-Perm x [] = Perm.refl (x ∷ [])
pop_top-Perm x (y ∷ ys) = elim (Bool-cases (cmp_request_type x y)) [
  | inl e ↦ rw e (Perm.trans (Perm.cons x (pop_top-Perm y ys)) (Perm.swap _ x _))
  | inr e ↦ rw e (
      Perm.trans (Perm.swap y x ys)
        (Perm.trans (Perm.cons y (pop_top-Perm x ys)) (Perm.swap _ y _)))
]

-- What the leader takes off its pending messages has the greatest request type of them all, so that a
-- cycle that is further on in Round 3 goes first, and the others stay, each as often as before.
pub pop_top_greatest :
    (x : MessageRound2Preprepare) (xs : List MessageRound2Preprepare)
    → AllBelow (pop_top x xs).0.request_type ((pop_top x xs).1)
      × Perm (x ∷ xs) ((pop_top x xs).0 ∷ (pop_top x xs).1)
pop_top_greatest x xs = (pop_top-AllBelow x xs, pop_top-Perm x xs)
