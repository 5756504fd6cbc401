-- ===== src/Round3/Membership/Votes.antt =====
-- ConnManager.cpp, dispatcher_round2_fullCommit, lines 1309 to 1364: the votes that the replicated
-- membership responses give to the groups, and the membership that is printed.
pub mod Tally
pub mod Majority
pub mod Fuel
use rcanopus_membership.Prelude.{
  ℕ, zero, suc, ◌+◌, ◌-◌, Bool, false, ltb, leb, ◌==◌, if◌then◌else◌, List, [], ◌∷◌, none, some,
  set, drop, length, replicate,
}
use rcanopus_membership.Outcome.{Outcome, done, undefined, ◌>>=◌, ◌>>◌, debug_throw}
use rcanopus_membership.Message.{
  MessageRound2Preprepare, MessageRound3FullMembership, get_message_size, sizeof_header,
  sizeof_preprepare,
}
use rcanopus_membership.Message.Image.{memcpy}
use rcanopus_membership.Manager.{at}
use rcanopus_membership.Round3.Membership.Bytes.{as_membership}

-- One entry of a matrix: a vote for group j, or a debug check that fails.
unfoldable pub tally_entry : Bool → ℕ → ℕ → List ℕ → Outcome (List ℕ)
tally_entry failfast entry j votes =
    if entry == 0
    then debug_throw failfast false >> done votes
    else at votes j >>= λ v. done (set votes j (v + 1))

-- The inner loop, over the rest of a row from group j on; it hands back what follows the row.
unfoldable pub tally_row : Bool → ℕ → ℕ → List ℕ → List ℕ → Outcome (List ℕ × List ℕ)
tally_row failfast zero j matrix votes = done (matrix, votes)
tally_row failfast (suc n) j [] votes = undefined
tally_row failfast (suc n) j (entry ∷ matrix) votes =
    tally_entry failfast entry j votes >>= λ votes'. tally_row failfast n (j + 1) matrix votes'

-- The outer loop, over the rows that are left, each of n entries.
unfoldable pub tally_rows : Bool → ℕ → ℕ → List ℕ → List ℕ → Outcome (List ℕ)
tally_rows failfast n zero matrix votes = done votes
tally_rows failfast n (suc rows) matrix votes =
    tally_row failfast n 0 matrix votes >>= λ r. tally_rows failfast n rows (r.0) (r.1)

unfoldable pub tally_message : Bool → ℕ → MessageRound3FullMembership → List ℕ → Outcome (List ℕ)
unfolding tally_rows
tally_message failfast num m votes = do
  debug_throw failfast (m.total_bg_num == num)
  tally_rows failfast m.total_bg_num m.total_bg_num m.connectivity votes

-- "while(pos < end)": every round moves at least a header ahead, so the number of bytes is fuel
-- enough.
unfoldable pub tally_messages : Bool → ℕ → ℕ → List ℕ → List ℕ → Outcome (List ℕ)
tally_messages failfast num fuel [] votes = done votes
tally_messages failfast num zero (b ∷ bytes) votes = undefined
tally_messages failfast num (suc fuel) (b ∷ bytes) votes = elim (as_membership (b ∷ bytes)) [
  | none ↦ undefined
  | some m ↦ tally_message failfast num m votes >>= λ votes'.
      if ltb (length (b ∷ bytes)) (get_message_size m.header)
      then debug_throw failfast false >> done votes'
      else tally_messages failfast num fuel (drop (get_message_size m.header) (b ∷ bytes)) votes'
]

-- The whole loop over the content of a committed message.
unfoldable pub count_votes : Bool → ℕ → MessageRound2Preprepare → Outcome (List ℕ)
unfolding tally_messages
count_votes failfast num p =
    if ltb (p.header.payload_len + sizeof_header) sizeof_preprepare
    then debug_throw failfast false >> done (replicate num 0)
    else do
      bytes ←
          memcpy (p.header.payload_len + sizeof_header - sizeof_preprepare)
            p.participants_and_content
      tally_messages failfast num (length bytes) bytes (replicate num 0)

-- finalMembership: the groups from i on with numBG - globalFailures votes.
unfoldable pub final_membership : ℕ → ℕ → ℕ → List ℕ → List ℕ
final_membership num failures i [] = []
final_membership num failures i (v ∷ votes) =
    let rest = final_membership num failures (i + 1) votes in
    if leb num (v + failures) then i ∷ rest else rest
