-- ===== src/Baseline/Fetch/Complete.antt =====
-- ConnManager_Baseline.cpp, dispatcher_round3_fetchResponse: a super leaf has the messages of all groups.
use rcanopus_membership.Prelude.{
  ℕ, zero, suc, ◌<◌, ◌≡◌, refl, ap, ◌∙◌, true, false, List, [], ◌∷◌, Option, none, some, length,
  arith, lt→ltb, lookup, lookup-insert_self, get_elem?, set, Bool-cases, inl, inr,
}
use rcanopus_membership.Outcome.{Outcome, done, ◌>>=◌}
use rcanopus_membership.Config.{num_bg}
use rcanopus_membership.Message.{MessageRound3FetchResponse, message_round2_full_commit}
use rcanopus_membership.Manager.{
  ConnManager, Host, CycleStatus, is_round2_leader, await, round3_waiting_for_local_connectivity,
}
use rcanopus_membership.Round3.Envoy.{find_cycle}
use rcanopus_membership.Round3.Fetch.{put_status}
use rcanopus_membership.Baseline.Fetch.{
  all_there, keep_response, go_on_if_all_there, dispatcher_baseline_fetch_response,
}

-- The groups without a response.
abbrev pub missing : List (Option MessageRound3FetchResponse) → ℕ
missing [] = 0
missing (none ∷ rest) = suc (missing rest)
missing (some p ∷ rest) = missing rest

all_there-missing :
    (v : List (Option MessageRound3FetchResponse)) → missing v ≡ 0 → all_there v ≡ true
unfolding all_there
all_there-missing [] h = refl
all_there-missing (none ∷ rest) h = absurd (omega arith)
all_there-missing (some p ∷ rest) h = all_there-missing rest h

some_missing : (v : List (Option MessageRound3FetchResponse)) → 0 < missing v → all_there v ≡ false
unfolding all_there
some_missing [] h = absurd (omega arith)
some_missing (none ∷ rest) h = refl
some_missing (some p ∷ rest) h = some_missing rest h

-- A response of a group that had none.
missing-set :
    (v : List (Option MessageRound3FetchResponse)) (i : ℕ) (p : MessageRound3FetchResponse)
    → get_elem? v i ≡ some none
    → (suc (missing (set v i (some p))) ≡ missing v) × (i < length v)
missing-set [] i p e = cc
missing-set (none ∷ rest) zero p e = (refl, omega arith)
missing-set (some q ∷ rest) zero p e = cc
missing-set (none ∷ rest) (suc i) p e =
    let (fewer, there) = missing-set rest i p e in (ap suc fewer, omega (arith, there))
missing-set (some q ∷ rest) (suc i) p e =
    let (fewer, there) = missing-set rest i p e in (fewer, omega (arith, there))

-- Responses that are dispatched one after the other.
unfoldable pub dispatch_responses :
    Host → ConnManager → List MessageRound3FetchResponse → Outcome ConnManager
dispatch_responses h s [] = done s
dispatch_responses h s (p ∷ responses) =
    dispatcher_baseline_fetch_response h s p >>= λ s'. dispatch_responses h s' responses

abbrev pub with_response : CycleStatus → MessageRound3FetchResponse → CycleStatus
with_response st p = record st { fetch_response = set st.fetch_response p.sender_bg_id (some p) }

abbrev pub with_responses : CycleStatus → List MessageRound3FetchResponse → CycleStatus
with_responses st [] = st
with_responses st (p ∷ responses) = with_responses (with_response st p) responses

-- They are for the cycle, each of another group that had sent none.
abbrev pub AreNew : ℕ → CycleStatus → List MessageRound3FetchResponse → Type 0
AreNew cycle st [] = Unit
AreNew cycle st (p ∷ responses) =
    (p.cycle ≡ cycle)
    × (get_elem? st.fetch_response p.sender_bg_id ≡ some none)
    × AreNew cycle (with_response st p) responses

-- A super leaf that is not the leader, in a network of several groups.
abbrev pub Fetches : ConnManager → ℕ → CycleStatus → Type 0
Fetches s cycle st =
    (is_round2_leader s ≡ false)
    × (1 < num_bg s.config)
    × (lookup cycle s.map_round3_status ≡ some st)

kept_status :
    (st : CycleStatus) (p : MessageRound3FetchResponse)
    → get_elem? st.fetch_response p.sender_bg_id ≡ some none
    → keep_response st p ≡ done (with_response st p)
unfolding keep_response
kept_status st p new = ground (arith, missing-set st.fetch_response p.sender_bg_id p new)

same_leader :
    (s : ConnManager) (cycle : ℕ) (st : CycleStatus)
    → is_round2_leader s ≡ false
    → is_round2_leader (go_on_if_all_there s cycle st) ≡ false
unfolding go_on_if_all_there is_round2_leader put_status
same_leader s cycle st h = elim (Bool-cases (all_there st.fetch_response)) [
  | inl whole ↦ rw (whole, h) h
  | inr part ↦ rw part h
]

found :
    (s : ConnManager) (cycle : ℕ) (st : CycleStatus)
    → lookup cycle s.map_round3_status ≡ some st
    → find_cycle s cycle ≡ done st
unfolding find_cycle
found s cycle st e = rw (e, find_cycle)

kept_under :
    (h : Host) (s : ConnManager) (cycle : ℕ) (st : CycleStatus) (p : MessageRound3FetchResponse)
    → Fetches s cycle st
    → p.cycle ≡ cycle
    → get_elem? st.fetch_response p.sender_bg_id ≡ some none
    → dispatcher_baseline_fetch_response h s p
      ≡ done (go_on_if_all_there s p.cycle (with_response st p))
unfolding dispatcher_baseline_fetch_response
kept_under h s cycle st p f same new =
    let there : find_cycle s p.cycle ≡ done st = rw same (found s cycle st f.2) in
    let still = same_leader s p.cycle (with_response st p) f.0 in
    rw (there, lt→ltb 1 _ f.1, kept_status st p new, still)

kept :
    (h : Host) (s : ConnManager) (cycle : ℕ) (st : CycleStatus) (p : MessageRound3FetchResponse)
    → Fetches s cycle st
    → p.cycle ≡ cycle
    → get_elem? st.fetch_response p.sender_bg_id ≡ some none
    → dispatcher_baseline_fetch_response h s p
      ≡ done (go_on_if_all_there s cycle (with_response st p))
kept h s cycle st p f same new =
    kept_under h s cycle st p f same new
    ∙ ap (λ c. done (go_on_if_all_there s c (with_response st p))) same

-- After a response the cycle waits for the others, or goes on.
waits_on :
    (s : ConnManager) (cycle : ℕ) (st : CycleStatus)
    → 0 < missing st.fetch_response
    → go_on_if_all_there s cycle st ≡ put_status s cycle st
unfolding go_on_if_all_there
waits_on s cycle st h = rw (some_missing st.fetch_response h)

goes_on :
    (s : ConnManager) (cycle : ℕ) (st : CycleStatus)
    → is_round2_leader s ≡ false
    → missing st.fetch_response ≡ 0
    → go_on_if_all_there s cycle st
      ≡ put_status s cycle
          (await round3_waiting_for_local_connectivity message_round2_full_commit 1 st)
unfolding go_on_if_all_there
goes_on s cycle st leader h = rw (all_there-missing st.fetch_response h, leader)

Fetches-next :
    (s : ConnManager) (cycle : ℕ) (st st' : CycleStatus)
    → Fetches s cycle st
    → Fetches (put_status s cycle st') cycle st'
unfolding put_status is_round2_leader
Fetches-next s cycle st st' f = (f.0, f.1, lookup-insert_self cycle st' s.map_round3_status)

dispatch_responses_both :
    (h : Host) (s : ConnManager) (cycle : ℕ) (st : CycleStatus)
    (responses : List MessageRound3FetchResponse)
    → Fetches s cycle st
    → AreNew cycle st responses
    → 0 < length responses
    → (s' : ConnManager) × (dispatch_responses h s responses ≡ done s')
      × (length responses < missing st.fetch_response
          → lookup cycle s'.map_round3_status ≡ some (with_responses st responses))
      × (length responses ≡ missing st.fetch_response
          → lookup cycle s'.map_round3_status
            ≡ some (await round3_waiting_for_local_connectivity 5 1 (with_responses st responses)))
unfolding dispatch_responses put_status
dispatch_responses_both h s cycle st [] f new some_there = absurd (omega arith)
dispatch_responses_both h s cycle st (p ∷ []) f (same, fresh, last) some_there =
    let st' = with_response st p in
    let one = (missing-set st.fetch_response p.sender_bg_id p fresh).0 in
    (
      go_on_if_all_there s cycle st',
      rw (kept h s cycle st p f same fresh),
      λ more.
          rw (waits_on s cycle st' (omega (arith, one)))
            (lookup-insert_self cycle st' s.map_round3_status),
      λ all. rw (goes_on s cycle st' f.0 (omega (arith, one))) (
          lookup-insert_self cycle
            (await round3_waiting_for_local_connectivity message_round2_full_commit 1 st')
            s.map_round3_status),
    )
dispatch_responses_both h s cycle st (p ∷ q ∷ responses) f (same, fresh, rest) some_there =
    let st' = with_response st p in
    let one = (missing-set st.fetch_response p.sender_bg_id p fresh).0 in
    let two = (missing-set st'.fetch_response q.sender_bg_id q rest.1).0 in
    let (s', runs, part, whole) =
      dispatch_responses_both h (put_status s cycle st') cycle st' (q ∷ responses)
        (Fetches-next s cycle st st' f) rest (omega arith) in
    (
      s',
      rw (kept h s cycle st p f same fresh, waits_on s cycle st' (omega (arith, two))) runs,
      λ more. part (omega (arith, one)),
      λ all. whole (omega (arith, one)),
    )

-- A super leaf that does not lead its group gets responses for a cycle, at least one, in any order, each
-- of a group that it had none of. As long as there are fewer than are missing it keeps each under its
-- group and waits.
pub dispatch_responses-below :
    (h : Host) (s : ConnManager) (cycle : ℕ) (st : CycleStatus)
    (responses : List MessageRound3FetchResponse)
    → Fetches s cycle st
    → AreNew cycle st responses
    → 0 < length responses
    → length responses < missing st.fetch_response
    → (s' : ConnManager) × (dispatch_responses h s responses ≡ done s')
      × (lookup cycle s'.map_round3_status ≡ some (with_responses st responses))
dispatch_responses-below h s cycle st responses f new some_there more =
    let (s', runs, part, whole) = dispatch_responses_both h s cycle st responses f new some_there in
    (s', runs, part more)

-- A super leaf that does not lead its group gets responses for a cycle, at least one, in any order, each
-- of a group that it had none of. If they are as many as are missing it keeps each under its group, and
-- then waits for the full commit of the local connectivity.
pub dispatch_responses-all :
    (h : Host) (s : ConnManager) (cycle : ℕ) (st : CycleStatus)
    (responses : List MessageRound3FetchResponse)
    → Fetches s cycle st
    → AreNew cycle st responses
    → 0 < length responses
    → length responses ≡ missing st.fetch_response
    → (s' : ConnManager) × (dispatch_responses h s responses ≡ done s')
      × (lookup cycle s'.map_round3_status
          ≡ some (await round3_waiting_for_local_connectivity 5 1 (with_responses st responses)))
dispatch_responses-all h s cycle st responses f new some_there all =
    let (s', runs, part, whole) = dispatch_responses_both h s cycle st responses f new some_there in
    (s', runs, whole all)
