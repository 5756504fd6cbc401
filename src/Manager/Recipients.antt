-- ===== src/Manager/Recipients.antt =====
-- Whom a message gets to: the copies that the recipients of a queue element stand for, a null pointer
-- for the node itself and the connections for the others.
use rcanopus_membership.Prelude.{
  ℕ, zero, suc, ◌+◌, ◌<◌, ◌≡◌, ◌≢◌, refl, Bool, not, ◌&&◌, ◌==◌, if◌then◌else◌, Bool-cases, inl,
  inr, List, [], ◌∷◌, arith, length,
}
use rcanopus_membership.Config.{Config, num_bg, num_sl}
use rcanopus_membership.Manager.{Peer, self, peer, push_group, broadcast_peers}

abbrev pub count_copies : (Peer → Bool) → List Peer → ℕ
count_copies gets [] = 0
count_copies gets (p ∷ peers) = let n = count_copies gets peers in if gets p then suc n else n

-- A copy for super leaf j of the node's group. A node has no connection to itself.
abbrev pub gets_to_leaf : Config → ℕ → Peer → Bool
gets_to_leaf c j self = j == c.sl_id
gets_to_leaf c j (peer bg sl) = (bg == c.bg_id) && ((sl == j) && not (sl == c.sl_id))

-- One copy for every super leaf of the node's group, and none for others.
abbrev pub ReachesGroup : Config → List Peer → Type 0
ReachesGroup c peers =
    (length peers ≡ num_sl c c.bg_id)
    × ((j : ℕ) → j < num_sl c c.bg_id → count_copies (gets_to_leaf c j) peers ≡ 1)

-- A copy for the leader of group j.
abbrev pub gets_to_leader : Config → ℕ → Peer → Bool
gets_to_leader c j self = (j == c.bg_id) && (c.sl_id == 0)
gets_to_leader c j (peer bg sl) = (bg == j) && ((sl == 0) && not (bg == c.bg_id))

-- One copy for the leader of every group, and none for others.
abbrev pub ReachesLeaders : Config → List Peer → Type 0
ReachesLeaders c peers =
    (length peers ≡ num_bg c)
    × ((j : ℕ) → j < num_bg c → count_copies (gets_to_leader c j) peers ≡ 1)

length-push_group_below : (bg but n : ℕ) → n < but + 1 → length (push_group bg but n) ≡ n
unfolding push_group
length-push_group_below bg but zero h = refl
length-push_group_below bg but (suc n) h = ground (arith, length-push_group_below bg but n)

length-push_group : (bg but n : ℕ) → but < n → length (push_group bg but n) + 1 ≡ n
unfolding push_group
length-push_group bg but zero h = absurd (omega arith)
length-push_group bg but (suc n) h = elim (Bool-cases (n == but)) [
  | inl own ↦ rw own (ground (arith, own, length-push_group_below bg but n))
  | inr other ↦ rw other (ground (arith, other, length-push_group bg but n))
]

copies_beyond :
    (c : Config) (j n : ℕ)
    → n < j + 1
    → count_copies (gets_to_leaf c j) (push_group c.bg_id c.sl_id n) ≡ 0
unfolding push_group
copies_beyond c j zero h = refl
copies_beyond c j (suc n) h = ground (arith, copies_beyond c j n)

copies_for_itself :
    (c : Config) (n : ℕ) → count_copies (gets_to_leaf c c.sl_id) (push_group c.bg_id c.sl_id n) ≡ 0
unfolding push_group
copies_for_itself c zero = refl
copies_for_itself c (suc n) = ground (arith, copies_for_itself c n)

copies_for_others :
    (c : Config) (j n : ℕ)
    → j ≢ c.sl_id
    → j < n
    → count_copies (gets_to_leaf c j) (push_group c.bg_id c.sl_id n) ≡ 1
unfolding push_group
copies_for_others c j zero other l = absurd (omega arith)
copies_for_others c j (suc n) other l =
    ground (arith, copies_beyond c j n, copies_for_others c j n other)

-- In a group that has the node a broadcast gets to every super leaf once.
pub broadcast_peers-ReachesGroup :
    (c : Config) → c.sl_id < num_sl c c.bg_id → ReachesGroup c (broadcast_peers c)
unfolding broadcast_peers
broadcast_peers-ReachesGroup c place = (
  omega (arith, length-push_group c.bg_id c.sl_id (num_sl c c.bg_id) place),
  λ j l. elim (Bool-cases (j == c.sl_id)) [
    | inl own ↦ ground (arith, own, copies_for_itself c (num_sl c c.bg_id))
    | inr other ↦ ground (arith, other, copies_for_others c j (num_sl c c.bg_id))
  ],
)
