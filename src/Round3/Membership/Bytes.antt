-- ===== src/Round3/Membership/Bytes.antt =====
-- message.h: MessageRound3FullMembership in memory, and the cast back.
use rcanopus_membership.Prelude.{ℕ, ◌+◌, ◌*◌, List, ◌++◌, Option, some, take, drop}
use rcanopus_membership.Message.{MessageRound3FullMembership}
use rcanopus_membership.Message.Image.{bytes16, bytes32, with16}

unfoldable pub membership_bytes : MessageRound3FullMembership → List ℕ
membership_bytes m = bytes16 m.header.version (
    bytes16 m.header.msg_type (
      bytes32 m.header.payload_len (
        bytes16 m.sender_bg_id (
          bytes16 m.sender_sl_id
            (m.combined_signature ++ bytes16 m.cycle (bytes16 m.total_bg_num m.connectivity))))))

-- (MessageRound3FullMembership *)pos: the matrix is all that follows the struct in the buffer.
unfoldable pub as_membership : List ℕ → Option MessageRound3FullMembership
as_membership bytes = with16 bytes λ version b. with16 b λ msg_type b. with16 b λ low b.
    with16 b λ high b. with16 b λ sender_bg_id b. with16 b λ sender_sl_id b.
      with16 (drop 32 b) λ cycle c. with16 c λ total_bg_num c. some (record {
        header = record {
          version = version;
          msg_type = msg_type;
          payload_len = low + 65536 * high;
        };
        sender_bg_id = sender_bg_id;
        sender_sl_id = sender_sl_id;
        combined_signature = take 32 b;
        cycle = cycle;
        total_bg_num = total_bg_num;
        connectivity = c;
      })
