-- ===== src/Message/Image.antt =====
-- message.h: the bytes of a preprepare message in memory, which the code copies with memcpy and reads
-- back through a cast. A number lies in memory with its low byte first, as on the hosts that
-- the program is built for.
pub mod Cast
use rcanopus_membership.Prelude.{
  ℕ, zero, suc, ◌+◌, ◌*◌, ◌/◌, ◌%◌, List, [], ◌∷◌, ◌++◌, Option, none, some, u8, take, length, leb,
  if◌then◌else◌,
}
use rcanopus_membership.Outcome.{Outcome, done, undefined}
use rcanopus_membership.Message.{MessageHeader, MessageRound2Preprepare}

abbrev pub bytes16 : ℕ → List ℕ → List ℕ
bytes16 x rest = x % 256 ∷ x / 256 % 256 ∷ rest

abbrev pub bytes32 : ℕ → List ℕ → List ℕ
bytes32 x rest = bytes16 (x % 65536) (bytes16 (x / 65536) rest)

-- The fields of MessageRound2Preprepare in their order.
unfoldable pub preprepare_bytes : MessageRound2Preprepare → List ℕ
preprepare_bytes p = bytes16 p.header.version (
    bytes16 p.header.msg_type (
      bytes32 p.header.payload_len (
        bytes16 p.sender (
          bytes16 p.view (
            bytes16 p.seq (
              bytes16 p.bg_id (
                bytes16 p.request_type (
                  bytes16 p.cycle (
                    bytes16 p.lastcycle (
                      bytes16 p.collector_sl_id (
                        bytes16 p.num_of_round3_participants (p.participants_and_content))))))))))))

abbrev pub with16 {ℓ} : {A : Type ℓ} → List ℕ → (ℕ → List ℕ → Option A) → Option A
with16 (lo ∷ hi ∷ rest) k = k (lo + 256 * hi) rest
with16 _ k = none

-- (MessageRound2Preprepare *)p: `none` if the buffer ends inside the struct.
unfoldable pub as_preprepare : List ℕ → Option MessageRound2Preprepare
as_preprepare bytes = with16 bytes λ version b. with16 b λ msg_type b. with16 b λ low b.
    with16 b λ high b. with16 b λ sender b. with16 b λ view b. with16 b λ seq b. with16 b λ bg_id b.
      with16 b λ request_type b. with16 b λ cycle b. with16 b λ lastcycle b.
        with16 b λ collector_sl_id b. with16 b λ num_of_round3_participants b. some (record {
          header = record {
            version = version;
            msg_type = msg_type;
            payload_len = low + 65536 * high;
          };
          sender = sender;
          view = view;
          seq = seq;
          bg_id = bg_id;
          request_type = request_type;
          cycle = cycle;
          lastcycle = lastcycle;
          collector_sl_id = collector_sl_id;
          num_of_round3_participants = num_of_round3_participants;
          participants_and_content = b;
        })

-- memcpy of the first n bytes of a buffer.
unfoldable pub memcpy : ℕ → List ℕ → Outcome (List ℕ)
memcpy n bytes = if leb n (length bytes) then done (take n bytes) else undefined
