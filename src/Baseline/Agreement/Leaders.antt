-- ===== src/Baseline/Agreement/Leaders.antt =====
-- ConnManager_Baseline.cpp, dispatcher_round3_partialCommit: whom the full commit gets to.
use rcanopus_membership.Prelude.{
  ℕ, zero, suc, ◌+◌, ◌<◌, ◌≡◌, ◌≢◌, refl, lt→ltb, ◌==◌, if◌then◌else◌, Bool-cases, inl, inr, List,
  [], ◌∷◌, arith, length,
}
use rcanopus_membership.Outcome.{done}
use rcanopus_membership.Config.{Config, num_bg, num_sl}
use rcanopus_membership.Manager.{Peer, self, peer, connection}
use rcanopus_membership.Manager.Recipients.{count_copies, gets_to_leader, ReachesLeaders}
use rcanopus_membership.Baseline.Agreement.{push_other_leaders}

abbrev other_leaders : ℕ → ℕ → List Peer
other_leaders bg zero = []
other_leaders bg (suc n) =
    let rest = other_leaders bg n in if n == bg then rest else peer n 0 ∷ rest

push_other_leaders_lem :
    (c : Config) (n : ℕ)
    → ((j : ℕ) → j < n → 0 < num_sl c j)
    → push_other_leaders c n ≡ done (other_leaders c.bg_id n)
unfolding push_other_leaders connection
push_other_leaders_lem c zero led = refl
push_other_leaders_lem c (suc n) led =
    let below = push_other_leaders_lem c n (λ j l. led j (omega arith)) in
    let there = lt→ltb 0 (num_sl c n) (led n (omega arith)) in ground (arith, below, there)

length-other_leaders_below : (bg n : ℕ) → n < bg + 1 → length (other_leaders bg n) ≡ n
length-other_leaders_below bg zero h = refl
length-other_leaders_below bg (suc n) h = ground (arith, length-other_leaders_below bg n)

length-other_leaders : (bg n : ℕ) → bg < n → length (other_leaders bg n) + 1 ≡ n
length-other_leaders bg zero h = absurd (omega arith)
length-other_leaders bg (suc n) h = elim (Bool-cases (n == bg)) [
  | inl own ↦ rw own (ground (arith, own, length-other_leaders_below bg n))
  | inr other ↦ rw other (ground (arith, other, length-other_leaders bg n))
]

leaders_beyond :
    (c : Config) (j n : ℕ)
    → n < j + 1
    → count_copies (gets_to_leader c j) (other_leaders c.bg_id n) ≡ 0
leaders_beyond c j zero h = refl
leaders_beyond c j (suc n) h = ground (arith, leaders_beyond c j n)

leaders_of_own_group :
    (c : Config) (n : ℕ) → count_copies (gets_to_leader c c.bg_id) (other_leaders c.bg_id n) ≡ 0
leaders_of_own_group c zero = refl
leaders_of_own_group c (suc n) = ground (arith, leaders_of_own_group c n)

leaders_of_others :
    (c : Config) (j n : ℕ)
    → j ≢ c.bg_id
    → j < n
    → count_copies (gets_to_leader c j) (other_leaders c.bg_id n) ≡ 1
leaders_of_others c j zero other l = absurd (omega arith)
leaders_of_others c j (suc n) other l =
    ground (arith, leaders_beyond c j n, leaders_of_others c j n other)

-- Where every group has a super leaf, what a leader sends to itself and to the others that are pushed
-- gets to the leader of every group once.
pub push_other_leaders-ReachesLeaders :
    (c : Config)
    → c.bg_id < num_bg c
    → c.sl_id ≡ 0
    → ((j : ℕ) → j < num_bg c → 0 < num_sl c j)
    → (peers : List Peer) × (push_other_leaders c (num_bg c) ≡ done peers)
      × ReachesLeaders c (self ∷ peers)
push_other_leaders-ReachesLeaders c place leads led = (
  other_leaders c.bg_id (num_bg c),
  push_other_leaders_lem c (num_bg c) led,
  (
    omega (arith, length-other_leaders c.bg_id (num_bg c) place),
    λ j l. elim (Bool-cases (j == c.bg_id)) [
      | inl own ↦ ground (arith, own, leads, leaders_of_own_group c (num_bg c))
      | inr other ↦ ground (arith, other, leaders_of_others c j (num_bg c))
    ],
  ),
)
