-- ===== src/Round2/Replica/Verifier.antt =====
-- server.cpp: fakeVerifier, the verifier that the program runs with.
use rcanopus_membership.Prelude.{
  ℕ, ◌≡◌, refl, ap, ◌∙◌, ◌↔◌, true, false, Bool, ◌==◌, if◌then◌else◌, List, [], ◌∷◌, some, arith,
  length, take, replicate,
}
use rcanopus_membership.Outcome.{done}
use rcanopus_membership.Config.{Config}
use rcanopus_membership.Message.{MessageRound2Preprepare, MessageRound2PartialCommit}
use rcanopus_membership.Message.Image.{preprepare_bytes}
use rcanopus_membership.Manager.{ConnManager, CycleStatus, SigVerifier}
use rcanopus_membership.Round2.Replica.{own_partial_commit, verify_partial_commit}

-- The loop over the bytes of the signature.
unfoldable pub fake_verifier : SigVerifier
fake_verifier msg [] = true
fake_verifier msg (b ∷ signature) = if b == 0 then fake_verifier msg signature else false

fake_verifier_iff :
    (msg signature : List ℕ)
    → (fake_verifier msg signature ≡ true) ↔ (signature ≡ replicate (length signature) 0)
unfolding fake_verifier replicate
fake_verifier_iff msg [] = (λ h. refl, λ h. refl)
fake_verifier_iff msg (b ∷ signature) =
    let rest = fake_verifier_iff msg signature in
    (λ h. ground (arith, rest.0), λ h. ground (arith, rest.1))

-- The bytes that a partial commit signs.
abbrev signed : MessageRound2Preprepare → List ℕ
signed stored = take stored.header.payload_len (preprepare_bytes stored)

verified :
    (s : ConnManager) (stored : MessageRound2Preprepare) (p : MessageRound2PartialCommit)
    → s.round2_verifier ≡ some fake_verifier
    → s.temporary_storage_of_preprepare ≡ some stored
    → verify_partial_commit s p ≡ done (fake_verifier (signed stored) p.signature)
unfolding verify_partial_commit
verified s stored p verifier there = ground (arith, verifier, there)

done-injective : {a b : Bool} → done a ≡ done b → a ≡ b
done-injective h = cc

-- A collector that runs with fakeVerifier and holds the message accepts exactly the partial commits
-- whose signature is all zeros, and so those that the super leaves make themselves.
pub verify_partial_commit_fake :
    (s : ConnManager) (stored : MessageRound2Preprepare)
    → s.round2_verifier ≡ some fake_verifier
    → s.temporary_storage_of_preprepare ≡ some stored
    → ((p : MessageRound2PartialCommit)
        → (verify_partial_commit s p ≡ done true)
          ↔ (p.signature ≡ replicate (length p.signature) 0))
      × ((c : Config) (st : CycleStatus)
          → verify_partial_commit s (own_partial_commit c st) ≡ done true)
unfolding verify_partial_commit own_partial_commit replicate
verify_partial_commit_fake s stored verifier there = (
  λ p.
      let zeros = fake_verifier_iff (signed stored) p.signature in
      rw (verified s stored p verifier there)
        (λ h. zeros.0 (done-injective h), λ h. ap done (zeros.1 h)),
  λ c st.
      verified s stored (own_partial_commit c st) verifier there
      ∙ ap done ((fake_verifier_iff (signed stored) (own_partial_commit c st).signature).1 refl),
)
