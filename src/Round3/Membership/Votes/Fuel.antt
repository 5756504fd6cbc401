-- ===== src/Round3/Membership/Votes/Fuel.antt =====
-- The loop over the membership responses ends.
use rcanopus_membership.Prelude.{
  ℕ, zero, suc, ◌+◌, ◌≤◌, ◌≡◌, refl, Bool, false, ltb, if◌then◌else◌, List, [], ◌∷◌, none, some,
  length, drop, arith,
}
use rcanopus_membership.Outcome.{done, undefined, ◌>>=◌, ◌>>◌, debug_throw}
use rcanopus_membership.Message.{MessageHeader, get_message_size}
use rcanopus_membership.Round3.Membership.Bytes.{as_membership}
use rcanopus_membership.Round3.Membership.Votes.{tally_message, tally_messages}

length-drop_le : (n : ℕ) (bytes : List ℕ) → length (drop n bytes) ≤ length bytes
length-drop_le zero bytes = omega arith
length-drop_le (suc n) [] = omega arith
length-drop_le (suc n) (b ∷ bytes) = omega (arith, length-drop_le n bytes)

-- A response takes its header's bytes at least.
shorter :
    (h : MessageHeader) (b : ℕ) (bytes : List ℕ) (fuel : ℕ)
    → length (b ∷ bytes) ≤ suc fuel
    → length (drop (get_message_size h) (b ∷ bytes)) ≤ fuel
unfolding get_message_size
shorter h b bytes fuel enough =
    let size : 8 + h.payload_len ≡ suc (7 + h.payload_len) = omega arith in
    rw size (omega (arith, length-drop_le (7 + h.payload_len) bytes))

-- The loop gives the same result on any fuel that is at least the number of bytes left, so that it
-- never stops for want of fuel: the source's loop, which has none, gives that result too.
pub tally_messages-fuel :
    (failfast : Bool) (num fuel more : ℕ) (bytes votes : List ℕ)
    → length bytes ≤ fuel
    → length bytes ≤ more
    → tally_messages failfast num fuel bytes votes ≡ tally_messages failfast num more bytes votes
unfolding tally_messages
tally_messages-fuel failfast num fuel more [] votes h k = refl
tally_messages-fuel failfast num zero more (b ∷ bytes) votes h k = absurd (omega arith)
tally_messages-fuel failfast num (suc fuel) zero (b ∷ bytes) votes h k = absurd (omega arith)
tally_messages-fuel failfast num (suc fuel) (suc more) (b ∷ bytes) votes h k = λ i.
    elim (as_membership (b ∷ bytes)) [
      | none ↦ undefined
      | some m ↦ tally_message failfast num m votes >>= λ votes'.
          if ltb (length (b ∷ bytes)) (get_message_size m.header)
          then debug_throw failfast false >> done votes'
          else tally_messages-fuel failfast num fuel more
              (drop (get_message_size m.header) (b ∷ bytes)) votes'
              (shorter m.header b bytes fuel h) (shorter m.header b bytes more k) i
    ]
