-- ===== src/Start/Progress.antt =====
-- server.cpp: the program from the configuration file on, whatever order its threads run in.
use rcanopus_membership.Prelude.{
  ℕ, zero, suc, ◌<◌, ◌≤◌, ◌≡◌, refl, Bool, false, sym, List, [], ◌∷◌, some, map, arith, length,
  get_elem?, replicate, ap,
}
use rcanopus_membership.Prelude.Int.{pos}
use mathlib.Core.Path.{subst}
use rcanopus_membership.Outcome.{done, Ensures}
use rcanopus_membership.Config.{BgInfo, Config, num_sl, get_f}
use rcanopus_membership.Config.Parse.{Scanner, ParsedBgInfo, ParsedConfig, parse_from_file}
use rcanopus_membership.Config.Place.{HasOwnPlace, parse_from_file-HasOwnPlace}
use rcanopus_membership.Message.Wire.{ByteOrder}
use rcanopus_membership.Manager.{ConnManager, Host, QueueElement}
use rcanopus_membership.Dispatcher.{dispatcher_round2}
use rcanopus_membership.Invariant.{setup}
use rcanopus_membership.Invariant.Rounds.{Variant}
use rcanopus_membership.Invariant.Loop.{membership_variant}
use rcanopus_membership.Invariant.Returns.{IsProposal}
use rcanopus_membership.Threads.Interleaving.{Node, Reach, IsSound}
use rcanopus_membership.Threads.Progress.{IsSetUp, proposals_return}
use rcanopus_membership.Start.{new_conn_manager, set_verifier, main_manager}

-- A configuration as the file gives it.
abbrev pub parsed_info : BgInfo → ParsedBgInfo
parsed_info info = record { failure = pos info.failure; addr = info.addr }

abbrev pub parsed : Config → ParsedConfig
parsed c = record {
  rg_bg_info = map parsed_info c.rg_bg_info;
  bg_id = pos c.bg_id;
  sl_id = pos c.sl_id;
  global_failures = pos c.global_failures;
  request_per_sl_per_second = pos c.request_per_sl_per_second;
}

has_leaves :
    (infos : List BgInfo) (bg sl : ℕ) (info : ParsedBgInfo)
    → get_elem? (map parsed_info infos) bg ≡ some info
    → sl < length info.addr
    → (there : BgInfo) × (get_elem? infos bg ≡ some there) × (sl < length there.addr)
has_leaves [] bg sl info e l = cc
has_leaves (x ∷ xs) zero sl info e l = (x, refl, ground (arith, e, l))
has_leaves (x ∷ xs) (suc bg) sl info e l = has_leaves xs bg sl info e l

own_group_has_leaves : (c : Config) → HasOwnPlace (parsed c) → 0 < num_sl c c.bg_id
unfolding num_sl
own_group_has_leaves c (bg, sl, info, same_bg, same_sl, there, inside) =
    let same : c.bg_id ≡ bg = ground (arith, same_bg) in
    let (x, e, l) = has_leaves c.rg_bg_info bg sl info there inside in
    subst (λ b. 0 < num_sl c b) (sym same) (rw (e, num_sl) (omega (arith, l)))

length-replicate : (n x : ℕ) → length (replicate n x) ≡ n
unfolding replicate
length-replicate zero x = refl
length-replicate (suc n) x = ap suc (length-replicate n x)

main_manager-IsSetUp :
    (found : Bool) (c : Config)
    → HasOwnPlace (parsed c)
    → get_f c c.bg_id ≤ num_sl c c.bg_id
    → IsSetUp (setup (main_manager found c))
unfolding main_manager new_conn_manager set_verifier
main_manager-IsSetUp found c place few = (
  own_group_has_leaves c place,
  (λ leads. ground (arith, leads, length-replicate (num_sl c c.bg_id) 0)),
  refl,
  few,
)

abbrev pub started : Bool → Config → Node
started found c = record { manager = main_manager found c; remaining = 0 }

started-IsSound :
    (v : Variant) (h : Host) (o : ByteOrder) (found : Bool) (c : Config)
    → IsSound v h o (setup (main_manager found c)) (started found c)
unfolding main_manager new_conn_manager set_verifier
started-IsSound v h o found c = record {
  as_set_up = refl;
  round2_ok = refl;
  enough_juggled = omega arith;
}

-- Let parseFromFile return a configuration without a negative number, in which the node's own group has
-- no more failures than super leaves. A node that main makes of it in
-- a build without DEBUG_FAILFAST, whatever round2_isCollector held, then dispatches requests,
-- preprepares and partial commits without an exception or undefined behaviour: however its threads
-- have run, the dispatch of one with the version and the type right and the collector in the group
-- returns.
pub started_proposals_return :
    (scanner : Scanner) (f rest : scanner.Input) (c : Config) (h : Host) (o : ByteOrder)
    (found : Bool) {m : Node}
    → parse_from_file scanner f ≡ done (parsed c, rest)
    → get_f c c.bg_id ≤ num_sl c c.bg_id
    → Reach membership_variant (record h { debug_failfast = false }) o (started found c) m
    → (e : QueueElement) → IsProposal m.manager e.message
    → (s : ConnManager) × (dispatcher_round2 (record h { debug_failfast = false }) m.manager e
        ≡ done s)
started_proposals_return scanner f rest c h o found file few reach e shape =
    let place =
      subst (Ensures (λ r. HasOwnPlace r.0)) file (parse_from_file-HasOwnPlace scanner f) in
    proposals_return h o (setup (main_manager found c)) (main_manager-IsSetUp found c place few)
      (started-IsSound membership_variant (record h { debug_failfast = false }) o found c) reach e
      shape
