-- ===== src/Round3/Fetch/Serve.antt =====
-- The requests of other groups that come before a cycle is in Round 3 are answered when it is.
use rcanopus_membership.Prelude.{
  ℕ, ◌<◌, ◌≡◌, refl, sym, ap, ◌∙◌, false, true, List, [], ◌∷◌, ◌++◌, Option, none, some, map,
  reverse, lookup, insert, get_elem?, arith, lookup-insert_self, append_assoc, append-nil,
  reverse_aux-eq, nil≢cons, Option-cases, inl, inr, lt→ltb,
}
use rcanopus_membership.Outcome.{Outcome, done, ◌>>=◌}
use rcanopus_membership.Config.{Config, num_sl}
use rcanopus_membership.Message.{
  MessageRound3FetchRequest, MessageRound3FetchResponse, fetch_response,
}
use rcanopus_membership.Manager.{
  ConnManager, Host, CycleStatus, Peer, peer, connection, storage_exist, is_state, round2_committed,
  send,
}
use rcanopus_membership.Round3.Envoy.{find_cycle, stored_at}
use rcanopus_membership.Round3.Pending.{
  Pending, add_pending, requester_peers, answer_pending, respond_to_pending_fetch_requests,
}
use rcanopus_membership.Round3.Fetch.{put_status, dispatcher_round3_fetch_request}

-- Requests that are dispatched one after the other.
unfoldable pub dispatch_requests :
    Host → ConnManager → List MessageRound3FetchRequest → Outcome ConnManager
dispatch_requests h s [] = done s
dispatch_requests h s (p ∷ ps) =
    dispatcher_round3_fetch_request h s p >>= λ s'. dispatch_requests h s' ps

abbrev or_none : Option (List (ℕ × ℕ)) → List (ℕ × ℕ)
or_none none = []
or_none (some requesters) = requesters

-- Who waits for a cycle.
abbrev pub waiting : ℕ → Pending → List (ℕ × ℕ)
waiting cycle pending = or_none (lookup cycle pending)

abbrev pub requester : MessageRound3FetchRequest → ℕ × ℕ
requester p = (p.sender_bg_id, p.sender_sl_id)

-- The requests are for the cycle, and their senders are super leaves of the configuration.
abbrev pub AreFor : Config → ℕ → List MessageRound3FetchRequest → Type 0
AreFor c cycle [] = Unit
AreFor c cycle (p ∷ ps) =
    (p.cycle ≡ cycle) × (p.sender_sl_id < num_sl c p.sender_bg_id) × AreFor c cycle ps

abbrev pub peer_of : ℕ × ℕ → Peer
peer_of (bg, sl) = peer bg sl

waiting-add_pending :
    (cycle : ℕ) (r : ℕ × ℕ) (pending : Pending)
    → waiting cycle (add_pending cycle r pending) ≡ waiting cycle pending ++ r ∷ []
unfolding add_pending
waiting-add_pending cycle r pending = elim (Option-cases (lookup cycle pending)) [
  | inl unknown ↦ rw (add_pending, unknown, lookup-insert_self cycle (r ∷ []) pending) refl
  | inr (requesters, known) ↦
      rw (add_pending, known, lookup-insert_self cycle (requesters ++ r ∷ []) pending) refl
]

early_request :
    (h : Host) (s : ConnManager) (cycle : ℕ) (p : MessageRound3FetchRequest)
    → p.cycle ≡ cycle
    → lookup cycle s.map_round3_status ≡ none
    → storage_exist cycle s.storage ≡ false
    → dispatcher_round3_fetch_request h s p
      ≡ done (record s {
        map_round3_pending_fetch_requests =
            add_pending cycle (requester p) s.map_round3_pending_fetch_requests;
      })
unfolding dispatcher_round3_fetch_request
early_request h s cycle p same unknown new = ground (arith, same, unknown, new)

-- The requests for a cycle that is not in Round 3 and not stored are kept in the order in which they
-- came, behind those that wait already, and nothing else changes.
pub dispatch_requests_lem :
    (h : Host) (s : ConnManager) (cycle : ℕ) (ps : List MessageRound3FetchRequest)
    → AreFor s.config cycle ps
    → lookup cycle s.map_round3_status ≡ none
    → storage_exist cycle s.storage ≡ false
    → (pending : Pending) × (dispatch_requests h s ps
        ≡ done (record s { map_round3_pending_fetch_requests = pending }))
      × (waiting cycle pending
          ≡ waiting cycle s.map_round3_pending_fetch_requests ++ map requester ps)
unfolding dispatch_requests
dispatch_requests_lem h s cycle [] ours unknown new =
    (s.map_round3_pending_fetch_requests, refl, sym (append-nil _))
dispatch_requests_lem h s cycle (p ∷ ps) ours unknown new =
    let s' = record s {
      map_round3_pending_fetch_requests =
          add_pending cycle (requester p) s.map_round3_pending_fetch_requests;
    } in
    let (pending, run, waits) = dispatch_requests_lem h s' cycle ps ours.2 unknown new in
    (
      pending,
      rw (early_request h s cycle p ours.0 unknown new) run,
      waits
          ∙ rw
              (
                waiting-add_pending cycle (requester p) s.map_round3_pending_fetch_requests,
                append_assoc,
              )
              refl,
    )

-- The requesters are super leaves of the configuration.
abbrev pub AreConnected : Config → List (ℕ × ℕ) → Type 0
AreConnected c [] = Unit
AreConnected c ((bg, sl) ∷ rest) = (sl < num_sl c bg) × AreConnected c rest

requester_peers_lem :
    (c : Config) (requesters : List (ℕ × ℕ)) (peers : List Peer)
    → AreConnected c requesters
    → requester_peers c requesters peers ≡ done (reverse (map peer_of requesters) ++ peers)
unfolding requester_peers connection
requester_peers_lem c [] peers there = refl
requester_peers_lem c (r ∷ rest) peers there = rw (lt→ltb (r.1) (num_sl c (r.0)) there.0) (
    requester_peers_lem c rest (peer_of r ∷ peers) there.1
    ∙ ap done (rw (reverse_aux-eq (map peer_of rest) (peer_of r ∷ []), append_assoc) refl))

respond_to_pending_fetch_requests_lem :
    (s : ConnManager) (cycle : ℕ) (st : CycleStatus) (response : MessageRound3FetchResponse)
    (r : ℕ × ℕ) (requesters : List (ℕ × ℕ))
    → is_state round2_committed st ≡ true
    → get_elem? st.fetch_response s.config.bg_id ≡ some (some response)
    → waiting cycle s.map_round3_pending_fetch_requests ≡ r ∷ requesters
    → AreConnected s.config (r ∷ requesters)
    → respond_to_pending_fetch_requests (put_status s cycle st) cycle
      ≡ done (record s {
        map_round3_status = insert cycle st s.map_round3_status;
        map_round3_pending_fetch_requests = insert cycle [] s.map_round3_pending_fetch_requests;
        send_queue =
            s.send_queue
            ++ record {
              up_peers = reverse (map peer_of (r ∷ requesters));
              message = fetch_response response;
            }
              ∷ [];
      })
unfolding respond_to_pending_fetch_requests find_cycle put_status stored_at answer_pending send
respond_to_pending_fetch_requests_lem s cycle st response r requesters state own waits there =
    let found = lookup-insert_self cycle st s.map_round3_status in
    let peers : requester_peers s.config (r ∷ requesters) []
        ≡ done (reverse (map peer_of (r ∷ requesters))) =
      requester_peers_lem s.config (r ∷ requesters) [] there
      ∙ ap done (append-nil (reverse (map peer_of (r ∷ requesters)))) in
    elim (Option-cases (lookup cycle s.map_round3_pending_fetch_requests)) [
      | inl unknown ↦ absurd (nil≢cons (rw unknown at waits))
      | inr (known, e) ↦
          let same : known ≡ r ∷ requesters = rw e at waits in
          ground (arith, found, peers, e, same, state, own)
    ]

AreConnected-of_AreFor :
    (c : Config) (cycle : ℕ) (ps : List MessageRound3FetchRequest)
    → AreFor c cycle ps
    → AreConnected c (map requester ps)
AreConnected-of_AreFor c cycle [] ours = tt
AreConnected-of_AreFor c cycle (p ∷ ps) ours = (ours.1, AreConnected-of_AreFor c cycle ps ours.2)

-- Requests for a cycle that come while the cycle is neither in Round 3 nor stored, and nobody waits for
-- it yet, are all answered when it enters Round 3: with the cycle's committed status, which holds the
-- group's own response, the node queues that response once, for exactly the senders of the requests,
-- and nobody waits for the cycle any more. Nothing else of the node changes but the status table.
pub early_requests_answered :
    (h : Host) (s : ConnManager) (cycle : ℕ) (st : CycleStatus)
    (response : MessageRound3FetchResponse) (p : MessageRound3FetchRequest)
    (ps : List MessageRound3FetchRequest)
    → AreFor s.config cycle (p ∷ ps)
    → lookup cycle s.map_round3_status ≡ none
    → storage_exist cycle s.storage ≡ false
    → waiting cycle s.map_round3_pending_fetch_requests ≡ []
    → is_state round2_committed st ≡ true
    → get_elem? st.fetch_response s.config.bg_id ≡ some (some response)
    → (pending : Pending) × ((dispatch_requests h s (p ∷ ps) >>= λ s'.
          respond_to_pending_fetch_requests (put_status s' cycle st) cycle)
        ≡ done (record s {
          map_round3_status = insert cycle st s.map_round3_status;
          map_round3_pending_fetch_requests = pending;
          send_queue =
              s.send_queue
              ++ record {
                up_peers = reverse (map peer_of (map requester (p ∷ ps)));
                message = fetch_response response;
              }
                ∷ [];
        }))
      × (waiting cycle pending ≡ [])
early_requests_answered h s cycle st response p ps ours unknown new nobody state own =
    let (pending, run, waits) = dispatch_requests_lem h s cycle (p ∷ ps) ours unknown new in
    let all : waiting cycle pending ≡ map requester (p ∷ ps) =
      waits ∙ ap (λ (l : List (ℕ × ℕ)). l ++ map requester (p ∷ ps)) nobody in
    (
      insert cycle [] pending,
      rw run (
          respond_to_pending_fetch_requests_lem
            (record s { map_round3_pending_fetch_requests = pending }) cycle st response
            (requester p) (map requester ps) state own all
            (AreConnected-of_AreFor s.config cycle (p ∷ ps) ours)),
      rw (lookup-insert_self cycle [] pending) refl,
    )
