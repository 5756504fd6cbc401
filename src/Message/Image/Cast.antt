-- ===== src/Message/Image/Cast.antt =====
-- A cast reads back what a copy wrote.
use rcanopus_membership.Prelude.{ℕ, suc, ◌+◌, ◌*◌, ◌/◌, ◌%◌, ◌<◌, ◌≡◌, some, take, length, arith}
use rcanopus_membership.Message.{MessageRound2Preprepare}
use rcanopus_membership.Message.Image.{preprepare_bytes, as_preprepare}

-- Every field fits its type.
abbrev pub PreprepareFits : MessageRound2Preprepare → Type 0
PreprepareFits p =
    (p.header.version < 65536)
    × (p.header.msg_type < 65536)
    × (p.header.payload_len < 4294967296)
    × (p.sender < 65536)
    × (p.view < 65536)
    × (p.seq < 65536)
    × (p.bg_id < 65536)
    × (p.request_type < 65536)
    × (p.cycle < 65536)
    × (p.lastcycle < 65536)
    × (p.collector_sl_id < 65536)
    × (p.num_of_round3_participants < 65536)

pub length-preprepare_bytes :
    (p : MessageRound2Preprepare)
    → length (preprepare_bytes p) ≡ 26 + length p.participants_and_content
unfolding preprepare_bytes
length-preprepare_bytes p = omega arith

word16 : (x : ℕ) → x < 65536 → x % 256 + 256 * (x / 256 % 256) ≡ x
word16 x h = omega arith

word32 :
    (x : ℕ)
    → x < 4294967296
    → x % 65536 % 256
        + 256 * (x % 65536 / 256 % 256)
        + 65536 * (x / 65536 % 256 + 256 * (x / 65536 / 256 % 256))
      ≡ x
word32 x h = omega arith

-- The first n bytes of a message that fits its fields, n being at least the size of the struct, are
-- read back with every fixed field as it was and with the content cut to the bytes that were copied.
pub as_preprepare-take :
    (n : ℕ) (p : MessageRound2Preprepare)
    → PreprepareFits p
    → as_preprepare (take (26 + n) (preprepare_bytes p))
      ≡ some (record p { participants_and_content = take n p.participants_and_content })
unfolding as_preprepare preprepare_bytes
as_preprepare-take n p h =
    let size : 26 + n
        ≡ suc (
            suc (
              suc (
                suc (
                  suc (
                    suc (
                      suc (
                        suc (
                          suc (
                            suc (
                              suc (
                                suc (
                                  suc (
                                    suc (
                                      suc (
                                        suc (
                                          suc (
                                            suc (
                                              suc (
                                                suc (
                                                  suc (
                                                    suc (
                                                      suc (
                                                        suc (suc (suc (n)))))))))))))))))))))))))) =
      omega arith in
    rw size (λ i. some (record p {
      header = record {
        version = word16 p.header.version h.0 i;
        msg_type = word16 p.header.msg_type h.1 i;
        payload_len = word32 p.header.payload_len h.2 i;
      };
      sender = word16 p.sender h.3 i;
      view = word16 p.view h.4 i;
      seq = word16 p.seq h.5 i;
      bg_id = word16 p.bg_id h.6 i;
      request_type = word16 p.request_type h.7 i;
      cycle = word16 p.cycle h.8 i;
      lastcycle = word16 p.lastcycle h.9 i;
      collector_sl_id = word16 p.collector_sl_id h.10 i;
      num_of_round3_participants = word16 p.num_of_round3_participants h.11 i;
      participants_and_content = take n p.participants_and_content;
    }))
