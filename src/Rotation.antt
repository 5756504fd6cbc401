-- ===== src/Rotation.antt =====
-- The load of Round 3 over a group: which super leaf is the primary envoy of the cycles that a
-- leader opens one after the other (ConnManager.cpp, leader_round2_sendPreprepare and
-- isPrimaryEnvoyRound3).
use native.Mathlib.Nat.{
  dvd-mul_left, mod-eq_of_lt, mod-lt, mod-mod_of_dvd, mul-mod_left, mod-add-mod,
  add-mul-mod_self_left,
}
use rcanopus_membership.Prelude.{
  ℕ, zero, suc, ◌+◌, ◌-◌, ◌*◌, ◌%◌, ◌<◌, ◌≡◌, ap, sym, ◌∙◌, List, ◌∷◌, arith,
}
use rcanopus_membership.Outcome.{Outcome, done, ◌>>=◌}
use rcanopus_membership.Config.{num_sl, get_f}
use rcanopus_membership.Manager.{ConnManager}
use rcanopus_membership.Round2.Leader.{
  choose_envoys, field_bytes, fill_preprepare, create_preprepare,
}
use rcanopus_membership.Round2.Leader.Envoys.{choose_envoys-rr}
use rcanopus_membership.Round3.Envoy.{first_field}

-- The super leaves and the envoys of the node's own group.
abbrev pub leaves : ConnManager → ℕ
leaves s = num_sl s.config s.config.bg_id

abbrev pub envoys : ConnManager → ℕ
envoys s = leaves s - get_f s.config s.config.bg_id

-- The leader after k messages of its own.
unfoldable pub after_messages : ℕ → ConnManager → Outcome ConnManager
after_messages zero s = done s
after_messages (suc k) s = create_preprepare s >>= λ r. after_messages k r.1

-- The primary envoy that the message after k others names.
unfoldable pub primary_after : ℕ → ConnManager → Outcome ℕ
unfolding after_messages
primary_after k s = do
  t ← after_messages k s
  r ← create_preprepare t
  first_field r.0.participants_and_content

-- The round robin is within the group, and the group has an envoy.
pub record RotationOk (s : ConnManager) : Type 0 where
  pub next_in_group : s.leader_envoys_rr < leaves s
  pub leaves_fit : leaves s < 65536
  pub has_envoy : 0 < envoys s

first_field-field_bytes :
    (x : ℕ) (xs content : List ℕ) → x < 65536 → first_field (field_bytes (x ∷ xs) content) ≡ done x
unfolding first_field field_bytes
first_field-field_bytes x xs content h = ap done (omega arith)

first_of_choose_envoys :
    (num n rr : ℕ) (content : List ℕ)
    → 0 < n
    → rr < 65536
    → first_field (field_bytes ((choose_envoys num n rr).0) content) ≡ done rr
unfolding choose_envoys
first_of_choose_envoys num zero rr content h lt = absurd (omega arith)
first_of_choose_envoys num (suc n) rr content h lt = first_field-field_bytes rr _ content lt

primary_of_fill_preprepare :
    (s : ConnManager)
    → RotationOk s
    → first_field ((fill_preprepare s).0.participants_and_content) ≡ done s.leader_envoys_rr
unfolding fill_preprepare
primary_of_fill_preprepare s h =
    first_of_choose_envoys (leaves s) (envoys s) s.leader_envoys_rr _ h.has_envoy (omega arith)

rr_of_fill_preprepare :
    (s : ConnManager)
    → RotationOk s
    → (fill_preprepare s).1.leader_envoys_rr ≡ (s.leader_envoys_rr + envoys s) % leaves s
unfolding fill_preprepare
rr_of_fill_preprepare s h =
    choose_envoys-rr (leaves s) (envoys s) s.leader_envoys_rr h.leaves_fit h.next_in_group

fill_preprepare-RotationOk : (s : ConnManager) → RotationOk s → RotationOk (fill_preprepare s).1
unfolding fill_preprepare
fill_preprepare-RotationOk s h = record {
  next_in_group = rw (rr_of_fill_preprepare s h) (mod-lt _ (omega (arith, h.next_in_group)));
  leaves_fit = h.leaves_fit;
  has_envoy = h.has_envoy;
}

-- A leader with an envoy makes its message.
create_preprepare_filled :
    (s : ConnManager) → RotationOk s → create_preprepare s ≡ done (fill_preprepare s)
unfolding create_preprepare
create_preprepare_filled s h = ground (arith, h.has_envoy)

one_more :
    (k : ℕ) (s : ConnManager)
    → RotationOk s
    → ((fill_preprepare s).1.leader_envoys_rr + k * envoys s) % leaves s
      ≡ (s.leader_envoys_rr + suc k * envoys s) % leaves s
one_more k s h =
    rw (rr_of_fill_preprepare s h, mod-add-mod) (ap (λ (n : ℕ). n % leaves s) (omega arith))

-- In a group of fewer than 2^16 super leaves, with at least one envoy and the round robin within
-- the group, the message that the leader makes after k others of its own names as its primary
-- envoy the super leaf that is k times the number of envoys, taken around the group, after the
-- next one.
pub primary_after_lem :
    (k : ℕ) (s : ConnManager)
    → RotationOk s
    → primary_after k s ≡ done ((s.leader_envoys_rr + k * envoys s) % leaves s)
unfolding primary_after after_messages
primary_after_lem zero s h = rw (create_preprepare_filled s h) (
    primary_of_fill_preprepare s h
    ∙ ap done (sym (mod-eq_of_lt h.next_in_group) ∙ ap (λ (n : ℕ). n % leaves s) (omega arith)))
primary_after_lem (suc k) s h = rw (create_preprepare_filled s h) (
    primary_after_lem k (fill_preprepare s).1 (fill_preprepare-RotationOk s h)
    ∙ ap done (unfold fill_preprepare in one_more k s h))

-- 3 (2f + 1) is 1 modulo 3f + 1.
around_the_group :
    (rr turns x f num n : ℕ)
    → num ≡ 3 * f + 1
    → n ≡ 2 * f + 1
    → rr + turns ≡ x + num
    → rr + 3 * turns * n ≡ x + num * (1 + 2 * turns)
around_the_group rr turns x f num n size envoys count = rw (size, envoys) (omega arith)

-- In a group of 3f + 1 super leaves, fewer than 2^16, with f failures and the round robin within
-- the group, every super leaf is the primary envoy of one of the messages that the leader makes.
pub primary_reaches_all :
    (s : ConnManager) (f x : ℕ)
    → RotationOk s
    → leaves s ≡ 3 * f + 1
    → get_f s.config s.config.bg_id ≡ f
    → x < leaves s
    → (k : ℕ) × (primary_after k s ≡ done x)
primary_reaches_all s f x h size failures lt =
    let turns : ℕ = x + leaves s - s.leader_envoys_rr in
    let count : s.leader_envoys_rr + turns ≡ x + leaves s = omega (arith, h.next_in_group) in
    let around : s.leader_envoys_rr + 3 * turns * envoys s ≡ x + leaves s * (1 + 2 * turns) =
      around_the_group s.leader_envoys_rr turns x f (leaves s) (envoys s) size (omega arith)
        count in
    (
      3 * turns,
      primary_after_lem (3 * turns) s h
          ∙ ap done (
              ap (λ (n : ℕ). n % leaves s) around
              ∙ (add-mul-mod_self_left x (leaves s) (1 + 2 * turns) ∙ mod-eq_of_lt lt)),
    )

three_of_four : (num failures f : ℕ) → num ≡ 4 * f → failures ≡ f → num - failures ≡ 3 * f
three_of_four num failures f size e = omega arith

-- In a group of 4f super leaves, fewer than 2^16, with f failures, such as the 12 with 3 of the
-- comment in the source, only the multiples of f are ever the primary envoy of a message of a
-- leader whose round robin starts at the first super leaf.
pub primary_misses :
    (s : ConnManager) (f k x : ℕ)
    → RotationOk s
    → leaves s ≡ 4 * f
    → get_f s.config s.config.bg_id ≡ f
    → s.leader_envoys_rr ≡ 0
    → primary_after k s ≡ done x
    → x % f ≡ 0
primary_misses s f k x h size failures start e =
    let place : x ≡ (s.leader_envoys_rr + k * envoys s) % leaves s =
      ground (arith, primary_after_lem k s h) in
    let third : s.leader_envoys_rr + k * envoys s ≡ k * 3 * f =
      rw (start, three_of_four (leaves s) (get_f s.config s.config.bg_id) f size failures)
        (omega arith) in
    rw (place, third, size)
      (mod-mod_of_dvd f (k * 3 * f) (dvd-mul_left f 4) ∙ mul-mod_left (k * 3) f)
