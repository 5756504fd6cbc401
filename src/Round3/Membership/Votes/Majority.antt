-- ===== src/Round3/Membership/Votes/Majority.antt =====
-- One response alone decides the membership.
use native.Mathlib.Nat.{mod-eq_of_lt, zero-add}
use rcanopus_membership.Prelude.{
  ℕ, zero, suc, ◌+◌, ◌*◌, ◌<◌, ◌≡◌, refl, ap, ◌∙◌, false, List, [], ◌∷◌, ◌++◌, replicate, arith,
  length-replicate,
}
use rcanopus_membership.Outcome.{done, ◌>>=◌}
use rcanopus_membership.Config.{Config, num_bg}
use rcanopus_membership.Round3.Membership.{all_reachable}
use rcanopus_membership.Round3.Membership.Votes.{tally_rows, tally_message, final_membership}
use rcanopus_membership.Round3.Membership.Votes.Tally.{
  add_row, add_rows, flatten, AllLong, tally_rows_lem,
}

-- The groups from i on, n of them.
unfoldable pub groups_from : ℕ → ℕ → List ℕ
groups_from i zero = []
groups_from i (suc n) = i ∷ groups_from (i + 1) n

add_row_ones : (n v : ℕ) → add_row (replicate n 1) (replicate n v) ≡ replicate n (v + 1)
unfolding add_row replicate
add_row_ones zero v = refl
add_row_ones (suc n) v = ap (◌∷◌ (v + 1)) (add_row_ones n v)

add_rows_ones :
    (k n v : ℕ) → add_rows (replicate k (replicate n 1)) (replicate n v) ≡ replicate n (v + k)
unfolding add_rows replicate
add_rows_ones zero n v = ap (λ (w : ℕ). replicate n w) (omega arith)
add_rows_ones (suc k) n v =
    rw (add_rows, add_row_ones n v)
      (add_rows_ones k n (v + 1) ∙ ap (λ (w : ℕ). replicate n w) (omega arith))

replicate_same : (m n a : ℕ) → m ≡ n → replicate m a ≡ replicate n a
replicate_same m n a e = ap (λ (k : ℕ). replicate k a) e

replicate_append : (m n a : ℕ) → replicate m a ++ replicate n a ≡ replicate (m + n) a
unfolding replicate
replicate_append zero n a = replicate_same n (zero + n) a (omega arith)
replicate_append (suc m) n a =
    ap (◌∷◌ a) (replicate_append m n a) ∙ replicate_same (suc (m + n)) (suc m + n) a (omega arith)

flatten_ones : (k n : ℕ) → flatten (replicate k (replicate n 1)) ≡ replicate (k * n) 1
unfolding flatten replicate
flatten_ones zero n = replicate_same 0 (0 * n) 1 (omega arith)
flatten_ones (suc k) n =
    ap (λ (l : List ℕ). replicate n 1 ++ l) (flatten_ones k n)
    ∙ (replicate_append n (k * n) 1 ∙ replicate_same (n + k * n) (suc k * n) 1 (omega arith))

AllLong-ones : (k n : ℕ) → AllLong n (replicate k (replicate n 1))
unfolding replicate
AllLong-ones zero n = tt
AllLong-ones (suc k) n = (length-replicate n 1, AllLong-ones k n)

final_membership_all :
    (num failures i n : ℕ) → final_membership num failures i (replicate n num) ≡ groups_from i n
unfolding final_membership groups_from replicate
final_membership_all num failures i zero = refl
final_membership_all num failures i (suc n) =
    ground (arith, final_membership_all num failures (i + 1) n)

tally_ones :
    (n : ℕ) → tally_rows false n n (replicate (n * n) 1) (replicate n 0) ≡ done (replicate n n)
tally_ones n =
    let ones : List (List ℕ) = replicate n (replicate n 1) in
    let row : List ℕ = replicate n 1 in
    let tallied = tally_rows_lem n ones (replicate n 0) (AllLong-ones n n) (length-replicate n 0) in
    (rw (length-replicate n row, flatten_ones n n) at tallied)
    ∙ ap done (add_rows_ones n n 0 ∙ ap (λ (w : ℕ). replicate n w) (zero-add n))

-- Without DEBUG_FAILFAST and with fewer than 2^16 groups, a single response of the kind that every
-- group sends, in which all groups reach all groups, makes every group a member of the final
-- membership, whatever number of failures is allowed and without any other response: its rows
-- alone give each group as many votes as there are groups.
pub one_response_decides :
    (c : Config) (cycle failures : ℕ)
    → num_bg c < 65536
    → (tally_message false (num_bg c) (all_reachable c cycle) (replicate (num_bg c) 0) >>= λ votes.
        done (final_membership (num_bg c) failures 0 votes))
      ≡ done (groups_from 0 (num_bg c))
unfolding tally_message all_reachable
one_response_decides c cycle failures small = ground (
  arith,
  mod-eq_of_lt small,
  tally_ones (num_bg c),
  final_membership_all (num_bg c) failures 0 (num_bg c),
)
