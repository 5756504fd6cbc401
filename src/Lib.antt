-- ===== src/Lib.antt =====
-- RCanopusMembership: a verification library for the consensus program of the repository.
--
-- The program runs one node, a super leaf of a group (BG). A leader in every group collects batches of
-- requests and proposes them to its group in messages, on which the group agrees in Round 2
-- (preprepare, partial commits to a collector, full commit). In Round 3 the groups exchange their
-- committed messages, then what they know of each other's reachability, and then their views of the
-- membership; what comes from another group is proposed again in Round 2, with its request type. A node
-- has a main loop that dispatches messages from a queue, a sender, a listener and a mock client.
--
-- Files:
--   Prelude (Tests, Lists, Maps): numbers, lists, association lists for std::map, machine words.
--   Const: const.h. Outcome: exception.h, with undefined behaviour as an outcome.
--   Message: the structs of message.h. Message/Wire: the conversions of message.cpp, and
--     ConnManager.cpp, sender and recvMessage_caller_free_mem. Message/Image: a message as bytes, for
--     memcpy and casts. Message/Round3: getRound3Response_caller_free_mem,
--     getRound3Request_caller_free_mem, and the packing of a fetched response in ConnManager.cpp.
--   Message/Sent: the part of a message that QueueElement::clone copies and sender writes.
--   Message/Wire/Baseline: the messages of the baseline, and what ConnManager_Baseline.cpp sends and
--     accepts.
--   Config: config.h. Config/Parse: config.cpp. Config/Place, RoundTrip: what is proved of it.
--   Manager: the state of a node (ConnManager.h, CycleStatus.h, QueueElement.h,
--     MockStorage.h). Manager/Recipients: whom a message gets to.
--   Round2/Leader: canStartRound2, leader_round2_sendPreprepare, dispatcher_round2_request.
--   Round2/Replica: dispatcher_round2_preprepare, dispatcher_round2_partialCommit.
--   Round2/Replica/Verifier: fakeVerifier of server.cpp.
--   Round3/Envoy, Pending, Fetch, Connectivity, Membership: the handlers and helpers of Round 3.
--   FullCommit (Client, Replicated): dispatcher_round2_fullCommit, a function for each request type.
--   Round2/Agreement: an abstract machine for the agreement of a group on a message; Handlers,
--     Refinement: the code beside it; Ballots, Network: the super leaves of a group together;
--     Delivery: what it takes for a message to be agreed on.
--   Network: several nodes that run together, and what they have sent.
--   Baseline (Agreement, Fetch, Commit, Dispatcher): what ConnManager_Baseline.cpp does otherwise than
--     ConnManager.cpp. Baseline/Agreement/Phases: an abstract machine for the agreement of the groups'
--     leaders; Handlers, Refinement: the code beside it; Moves, Network: the leaders together;
--     Progress, Leaders, Baseline/Fetch/Complete: runs of one node. Baseline/Unreached: the handlers of
--     ConnManager.cpp that its dispatcher does not reach, beside the baseline's.
--   Hybrid (Preprepare, Commit, Dispatcher): what ConnManager_Hybrid.cpp does otherwise.
--   Connections: isPassiveConnection, isActiveConnection, and the loops of ConnManager.cpp that wait for
--     connections and open them. Connections/Accept: the loop that accepts them. PeerConnection:
--     PeerConnection.cpp. Connections/Callers, Connections/Accept/Callers, PeerConnection/Stream:
--     what is proved of these.
--   Dispatcher: dispatcher_round2 and the loop of start. Threads: a round of each other thread, and
--     what listener does for a message. Threads/Listener: the poll slots, and a round of listener;
--     Steps: what is proved of it. Threads/Interleaving: the threads of a node, in any order.
--   Start: the constructor of ConnManager.cpp, less the connections, and what main of server.cpp
--     makes of the configuration.
--     Start/Progress, Threads/Progress: what the main thread can dispatch at any time.
--   Round2/Leader/Envoys, Queue, Proposal, Length, Round2/Replica/Progress, Round3/Fetch/Serve,
--     Round3/Membership/Votes/Tally, Majority, Fuel, Message/Wire/RoundTrip, Message/Image/Cast,
--     Message/Round3/Relay, Query, Round3/Envoy/Roles, Rotation: what is proved of these parts.
--   Invariant (Frame, Round2, FullCommit and their children, Dispatch, Returns): what holds of a node between two
--     messages. Invariant/Rounds: the loop of start over an interface that the three variants of the
--     program fill, in Invariant/Loop, Invariant/Baseline and Invariant/Hybrid.
--   Scenarios (Round2, Round3, Agreement, Messages, Text, Files, Baseline, Connections, Threads, Start):
--     the theorems at concrete nodes and messages. Text: fscanf and inet_aton on bytes, as parameters.
--
-- Modelling: a handler is a function from the state to an outcome: a state, an exception, the abort of
-- DEBUG_FAILFAST, or undefined behaviour, which stands for an access out of bounds or through a null
-- pointer. A pointer to a message is the message, since a message has one owner at a time (unique_ptr,
-- moves, or a clone). A uint16_t or uint32_t is reduced where it is stored; the int counters are taken
-- not to overflow. A forward_list is a list, its front first; the queues are lists, first in first out.
-- std::priority_queue gives the oldest of several greatest elements, where the standard leaves it open.
-- htons and its kin are a parameter of the conversions, the random engine one of the node. The time
-- and what is printed are left out, but for the list of cycles with a submission time. The loop over
-- the membership responses runs on fuel, the number of bytes, of which each response takes at least 8.
--
-- The threads of a node interleave step by step, where the dispatch of a message is one step: the other
-- threads meanwhile only use the queues, the leader's count of its own batches and the submission times.
-- A variant of the program comes with its own dispatch, loop and switches for sending and receiving.
-- pLeaderRound2PendingPreprepareRaw and the counters, which only the leader has, are empty on the others,
-- where canStartRound2 without a status is undefined. So is a leader's own message in a group with more
-- failures than super leaves, whose number of participants would be negative.
--
-- In the networks of leaders and of super leaves a message may be dispatched in any order and more than
-- once, within the number of partial commits that were sent; the send queues there keep what was sent.
-- A configuration file is what a scanner reads of it: the conversions of fscanf, inet_aton and htons are
-- parameters, and a writer states what they read back; %d gives an int of 32 bits.
--
-- ::send and ::recv are a parameter too, whose documented behaviour on a stream the theorems assume; the
-- loops around them run on fuel, of which one round for each byte is enough, as each moves at least one.
--
-- Not modelled: poll itself, the opening and the options of sockets, and the opening of and the writes to the
-- pipe (in ConnManager.cpp lines 209 to 228, 247 to 256, 273 to 279 and 424 to 426), the interval of the client's
-- batches (lines 196 to 199), the opening of test.conf and the printed exceptions of main, util.h,
-- the queue libraries, and the scripts. The parts of the two variants that are the same as in ConnManager.cpp
-- are modelled once.
pub mod Prelude
pub mod Const
pub mod Outcome
pub mod PeerConnection
pub mod Message
pub mod Config
pub mod Connections
pub mod Manager
pub mod Network
pub mod Round2
pub mod Round3
pub mod FullCommit
pub mod Baseline
pub mod Hybrid
pub mod Dispatcher
pub mod Threads
pub mod Start
pub mod Rotation
pub mod Invariant
pub mod Scenarios
