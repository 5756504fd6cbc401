-- ===== src/Round2/Leader/Envoys.antt =====
-- The envoys that the leader writes into its messages, cycle after cycle.
use rcanopus_membership.Prelude.{ap, ◌∙◌, ℕ, zero, suc, ◌+◌, ◌%◌, ◌<◌, ◌≡◌, some, get_elem?, arith}
use native.Mathlib.Nat.{add-zero, mod-eq_of_lt, mod_self, mod-add-mod}
use rcanopus_membership.Round2.Leader.{next_round_robin, choose_envoys}

-- A round robin that stays below the number of super leaves adds 1 modulo that number.
pub next_round_robin_lem :
    (num rr : ℕ) → num < 65536 → rr < num → next_round_robin num rr ≡ (rr + 1) % num
unfolding next_round_robin
next_round_robin_lem num rr small h =
    ground (arith, mod-eq_of_lt {n = rr + 1} {m = num}, mod_self num)

pub next_round_robin-lt : (num rr : ℕ) → num < 65536 → rr < num → next_round_robin num rr < num
unfolding next_round_robin
next_round_robin-lt num rr small h = ground arith

-- n places after the next one.
next_place :
    (num rr n : ℕ)
    → num < 65536
    → rr < num
    → (next_round_robin num rr + n) % num ≡ (rr + suc n) % num
next_place num rr n small h =
    rw (next_round_robin_lem num rr small h, mod-add-mod) (ap (λ (k : ℕ). k % num) (omega arith))

pub choose_envoys-rr :
    (num n rr : ℕ) → num < 65536 → rr < num → (choose_envoys num n rr).1 ≡ (rr + n) % num
unfolding choose_envoys
choose_envoys-rr num zero rr small h = rw (add-zero, mod-eq_of_lt h)
choose_envoys-rr num (suc n) rr small h =
    choose_envoys-rr num n (next_round_robin num rr) small (next_round_robin-lt num rr small h)
    ∙ next_place num rr n small h

-- The i-th of the n participants that the leader writes is the super leaf i places after the next
-- envoy, around the group, if the next envoy is in the group and the group has fewer than 2^16
-- super leaves.
pub get_elem?-choose_envoys :
    (num n rr i : ℕ)
    → num < 65536
    → rr < num
    → i < n
    → get_elem? ((choose_envoys num n rr).0) i ≡ some ((rr + i) % num)
unfolding choose_envoys
get_elem?-choose_envoys num zero rr i small h lt = absurd (omega arith)
get_elem?-choose_envoys num (suc n) rr zero small h lt = rw (add-zero, mod-eq_of_lt h)
get_elem?-choose_envoys num (suc n) rr (suc i) small h lt =
    get_elem?-choose_envoys num n (next_round_robin num rr) i small
      (next_round_robin-lt num rr small h) (omega arith)
    ∙ ap some (next_place num rr i small h)
