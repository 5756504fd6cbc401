-- ===== src/Round3/Envoy.antt =====
-- ConnManager.cpp: who acts for a group in Round 3, and the end of a cycle (isPrimaryEnvoyRound3,
-- isBackupEnvoyRound3, getOneSLFromEveryRemoteBG, round3_committed).
pub mod Roles
use rcanopus_membership.Prelude.{
  ℕ, zero, suc, ◌+◌, ◌-◌, ◌*◌, Bool, true, false, ◌==◌, if◌then◌else◌, List, [], ◌∷◌, Option, none,
  some, lookup, erase,
}
use rcanopus_membership.Outcome.{
  Outcome, done, thrown, undefined, cycle_not_in_round3, unexpected_cycle_state, no_envoy_selected,
  ◌>>=◌,
}
use rcanopus_membership.Config.{Config, num_bg, num_sl}
use rcanopus_membership.Message.{MessageRound2Preprepare}
use rcanopus_membership.Message.Round3.{cast_preprepare}
use rcanopus_membership.Manager.{
  ConnManager, Host, CycleStatus, Peer, peer, round3_committed as committed_state, at, is_state,
  storage_store,
}

-- mapRound3Status.find(cycle), and the exception where there is no entry.
unfoldable pub find_cycle : ConnManager → ℕ → Outcome CycleStatus
find_cycle s cycle = elim (lookup cycle s.map_round3_status) [
  | none ↦ thrown cycle_not_in_round3
  | some st ↦ done st
]

-- v[i]->pMessage.
unfoldable pub stored_at {ℓ} : {A : Type ℓ} → List (Option A) → ℕ → Outcome A
stored_at v i = do entry ← at v i; elim entry [ none ↦ undefined | some a ↦ done a ]

-- The group's own preprepare message of a cycle, as it lies in the fetch response.
unfoldable pub own_preprepare : ConnManager → ℕ → Outcome MessageRound2Preprepare
unfolding find_cycle stored_at
own_preprepare s cycle = do
  st ← find_cycle s cycle
  response ← stored_at st.fetch_response s.config.bg_id
  cast_preprepare response.entire_preprepare_msg

-- *pEnvoy.
unfoldable pub first_field : List ℕ → Outcome ℕ
first_field (lo ∷ hi ∷ _) = done (lo + 256 * hi)
first_field _ = undefined

-- The loop over n fields that looks for x.
unfoldable pub any_field : ℕ → List ℕ → ℕ → Outcome Bool
any_field zero bytes x = done false
any_field (suc n) (lo ∷ hi ∷ bytes) x =
    let rest = any_field n bytes x in if lo + 256 * hi == x then done true else rest
any_field (suc n) _ x = undefined

-- pEnvoy++.
abbrev pub skip_field : List ℕ → List ℕ
skip_field (lo ∷ hi ∷ bytes) = bytes
skip_field _ = []

unfoldable pub is_primary_envoy_round3 : ConnManager → ℕ → Outcome Bool
unfolding own_preprepare first_field
is_primary_envoy_round3 s cycle = do
  p ← own_preprepare s cycle
  if p.num_of_round3_participants == 0
      then thrown no_envoy_selected
      else (do first ← first_field p.participants_and_content; done (first == s.config.sl_id))

unfoldable pub is_backup_envoy_round3 : ConnManager → ℕ → Outcome Bool
unfolding own_preprepare any_field
is_backup_envoy_round3 s cycle = do
  p ← own_preprepare s cycle
  if p.num_of_round3_participants == 0
      then thrown no_envoy_selected
      else if p.num_of_round3_participants == 1
      then done false
      else any_field (p.num_of_round3_participants - 1) (skip_field p.participants_and_content)
          s.config.sl_id

-- The loop of getOneSLFromEveryRemoteBG over the first n groups, and the engine after it.
unfoldable pub draw_peers : Host → Config → ℕ → ℕ → List Peer × ℕ
draw_peers h c zero engine = ([], engine)
draw_peers h c (suc i) engine =
    let (peers, engine') = draw_peers h c i engine in
    if i == c.bg_id
    then (peers, engine')
    else (peer i (h.draw engine' (num_sl c i - 1)) ∷ peers, engine' + 1)

unfoldable pub get_one_sl_from_every_remote_bg : Host → ConnManager → List Peer × ConnManager
unfolding draw_peers
get_one_sl_from_every_remote_bg h s =
    let (peers, engine') = draw_peers h s.config (num_bg s.config) s.engine in
    (peers, record s { engine = engine' })

-- round3_committed, less the line that it prints.
unfoldable pub round3_committed : ConnManager → ℕ → Outcome ConnManager
unfolding find_cycle
round3_committed s cycle = do
  st ← find_cycle s cycle
  if is_state committed_state st
      then done (record s {
        map_round3_status = erase cycle s.map_round3_status;
        map_cycle_submission_time = erase cycle s.map_cycle_submission_time;
        storage = storage_store cycle s.storage;
      })
      else thrown unexpected_cycle_state
