-- ===== src/Round2/Leader/Length.antt =====
-- How long the leader's own message says that it is, and how long it is.
use rcanopus_membership.Prelude.{
  ℕ, zero, suc, ◌+◌, ◌*◌, ◌<◌, ◌≤◌, ltb, false, ◌≡◌, refl, ap, List, [], ◌∷◌, length,
  length-replicate, arith,
}
use rcanopus_membership.Const.{request_batch_size}
use rcanopus_membership.Message.{MessageRound2Preprepare, get_message_size}
use rcanopus_membership.Outcome.{done}
use rcanopus_membership.Config.{get_f}
use rcanopus_membership.Message.Image.{preprepare_bytes}
use rcanopus_membership.Message.Image.Cast.{length-preprepare_bytes}
use rcanopus_membership.Manager.{ConnManager}
use rcanopus_membership.Round2.Leader.{
  fill_preprepare, create_preprepare, choose_envoys, field_bytes,
}
use rcanopus_membership.Rotation.{leaves, envoys}

length-choose_envoys : (num n rr : ℕ) → length ((choose_envoys num n rr).0) ≡ n
unfolding choose_envoys
length-choose_envoys num zero rr = refl
length-choose_envoys num (suc n) rr = ap suc (length-choose_envoys num n _)

length-field_bytes :
    (xs content : List ℕ) → length (field_bytes xs content) ≡ 2 * length xs + length content
unfolding field_bytes
length-field_bytes [] content = omega arith
length-field_bytes (x ∷ xs) content = omega (arith, length-field_bytes xs content)

-- In a group with no more failures than super leaves, if the participants and the content of the
-- leader's own message have fewer than 2^32 bytes, as with fewer than 4096 super leaves, the leader makes
-- the message, and it is 18 bytes longer than getMessageSize finds by its header: the length in the
-- header leaves out the fields of the struct. So the sender, which writes getMessageSize bytes, and the
-- copy for Round 3 leave out its last 18 bytes.
pub create_preprepare_cut :
    (s : ConnManager)
    → get_f s.config s.config.bg_id ≤ leaves s
    → 2 * envoys s + leaves s * request_batch_size < 4294967296
    → (p : MessageRound2Preprepare) × (t : ConnManager) × (create_preprepare s ≡ done (p, t))
      × (length (preprepare_bytes p) ≡ get_message_size p.header + 18)
unfolding create_preprepare fill_preprepare get_message_size
create_preprepare_cut s failures fits =
    let made : ltb (leaves s) (get_f s.config s.config.bg_id) ≡ false = ground (arith, failures) in
    (
      (fill_preprepare s).0,
      (fill_preprepare s).1,
      rw made refl,
      rw (length-preprepare_bytes, length-field_bytes, length-choose_envoys, length-replicate)
          (omega arith),
    )
