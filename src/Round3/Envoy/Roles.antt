-- ===== src/Round3/Envoy/Roles.antt =====
-- Who of a group is the primary and who a backup envoy of a cycle.
use rcanopus_membership.Prelude.{
  ℕ, suc, ◌+◌, ◌-◌, ◌*◌, ◌/◌, ◌%◌, ◌<◌, ◌≡◌, refl, Bool, false, true, ◌==◌, if◌then◌else◌, List, [],
  ◌∷◌, some, length, get_elem?, lookup, arith,
}
use rcanopus_membership.Outcome.{done}
use rcanopus_membership.Message.{MessageRound2Preprepare, MessageRound3FetchResponse}
use rcanopus_membership.Message.Image.{as_preprepare}
use rcanopus_membership.Manager.{ConnManager, CycleStatus}
use rcanopus_membership.Round2.Leader.{field_bytes}
use rcanopus_membership.Round3.Envoy.{
  find_cycle, stored_at, own_preprepare, first_field, any_field, skip_field,
  is_primary_envoy_round3, is_backup_envoy_round3,
}

abbrev pub is_member : ℕ → List ℕ → Bool
is_member x [] = false
is_member x (y ∷ ys) = if y == x then true else is_member x ys

-- Every participant is a uint16_t.
abbrev pub AreWords : List ℕ → Type 0
AreWords [] = Unit
AreWords (x ∷ xs) = (x < 65536) × AreWords xs

field_back : (x : ℕ) → x < 65536 → x % 256 + 256 * (x / 256 % 256) ≡ x
field_back x h = omega arith

any_field-field_bytes :
    (xs content : List ℕ) (x : ℕ)
    → AreWords xs
    → any_field (length xs) (field_bytes xs content) x ≡ done (is_member x xs)
unfolding any_field field_bytes
any_field-field_bytes [] content x words = refl
any_field-field_bytes (y ∷ ys) content x words =
    rw (field_back y words.0, any_field-field_bytes ys content x words.1) (ground arith)

own_preprepare_lem :
    (s : ConnManager) (cycle : ℕ) (st : CycleStatus) (response : MessageRound3FetchResponse)
    (p : MessageRound2Preprepare)
    → lookup cycle s.map_round3_status ≡ some st
    → get_elem? st.fetch_response s.config.bg_id ≡ some (some response)
    → as_preprepare response.entire_preprepare_msg ≡ some p
    → own_preprepare s cycle ≡ done p
unfolding own_preprepare find_cycle stored_at
own_preprepare_lem s cycle st response p known own cast = ground (arith, known, own, cast)

backup_of :
    (s : ConnManager) (cycle : ℕ) (p : MessageRound2Preprepare) (x : ℕ) (xs content : List ℕ)
    → own_preprepare s cycle ≡ done p
    → p.num_of_round3_participants ≡ suc (length xs)
    → p.participants_and_content ≡ field_bytes (x ∷ xs) content
    → AreWords (x ∷ xs)
    → is_backup_envoy_round3 s cycle ≡ done (is_member s.config.sl_id xs)
unfolding is_backup_envoy_round3 field_bytes
backup_of s cycle p x [] content mine number named words = ground (arith, mine, number)
backup_of s cycle p x (y ∷ ys) content mine number named words =
    let found = any_field-field_bytes (y ∷ ys) content s.config.sl_id words.1 in
    let left : p.num_of_round3_participants - 1 ≡ suc (length ys) = omega arith in
    let skipped : skip_field p.participants_and_content ≡ field_bytes (y ∷ ys) content =
      rw named refl in
    ground (arith, mine, number, left, skipped, found)

-- For a cycle in Round 3 whose message of the group names the participants x and then xs, all of 16
-- bits, a node takes itself for the primary envoy exactly if it is x and for a backup envoy exactly if
-- it is among xs, and neither call throws or reads beyond the participants.
pub envoy_roles :
    (s : ConnManager) (cycle : ℕ) (st : CycleStatus) (response : MessageRound3FetchResponse)
    (p : MessageRound2Preprepare) (x : ℕ) (xs content : List ℕ)
    → lookup cycle s.map_round3_status ≡ some st
    → get_elem? st.fetch_response s.config.bg_id ≡ some (some response)
    → as_preprepare response.entire_preprepare_msg ≡ some p
    → p.num_of_round3_participants ≡ suc (length xs)
    → p.participants_and_content ≡ field_bytes (x ∷ xs) content
    → AreWords (x ∷ xs)
    → (is_primary_envoy_round3 s cycle ≡ done (x == s.config.sl_id))
      × (is_backup_envoy_round3 s cycle ≡ done (is_member s.config.sl_id xs))
unfolding is_primary_envoy_round3 is_backup_envoy_round3 field_bytes first_field
envoy_roles s cycle st response p x xs content known own cast number named words =
    let mine = own_preprepare_lem s cycle st response p known own cast in
    let back = field_back x words.0 in
    (
      ground (arith, mine, number, named, back),
      backup_of s cycle p x xs content mine number named words,
    )
