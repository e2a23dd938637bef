-- ===== src/Tims/Mailbox/Tests.antt =====
-- Runs of the mailbox of src/tims_backend.cpp on concrete streams.
use core_ra_t.Base.{ℕ, ◌^◌, ◌<◌, ◌≡◌, refl, Bool, true, some, List, [], ◌∷◌, ◌++◌, arith}
use core_ra_t.Base.Int.{pos}
use core_ra_t.Tims.Protocol.{
  FrameHeader, IsFrame, make_frame, frame_bytes, body_length, msg_ok, msg_router_get_status,
}
use core_ra_t.Tims.Mailbox.{
  TimsMailbox, always, new_mailbox, success, data_header, send_raw, too_large, received, waiting,
  receive_raw,
}
use core_ra_t.Tims.Mailbox.Receive.{receive_too_large}
use core_ra_t.Tims.Mailbox.Send.{send-receive}

-- The swap of a host that is little-endian, for messages of its own kind.
abbrev no_swap : Bool → List ℕ → List ℕ
no_swap little bytes = bytes

abbrev connected_mailbox : ℕ → List ℕ → TimsMailbox
connected_mailbox id stream =
    record (new_mailbox (record { mailbox_id = id; max_msg_size = 4096; priority = 10 })) {
      is_open = true;
      is_initialized = true;
      incoming = stream;
    }

make_frame-IsFrame :
    (type dest src n : ℕ)
    → type < 128
    → dest < 2 ^ 32
    → src < 2 ^ 32
    → IsFrame (make_frame (pos type) dest src 0 1 n)
unfolding make_frame
make_frame-IsFrame type dest src n t d s = record {
  flags_byte = omega arith;
  type_low = omega arith;
  type_high = omega arith;
  priority_byte = omega arith;
  seq_byte = omega arith;
  dest_word = d;
  src_word = s;
  msglen_word = omega arith;
}

abbrev status_frame : FrameHeader
status_frame = make_frame msg_router_get_status 7 300 0 1 0

abbrev data_frame : FrameHeader
data_frame = make_frame (pos 0) 7 9 0 1 3

abbrev busy_mailbox : TimsMailbox
busy_mailbox =
    connected_mailbox 7
      ((frame_bytes status_frame ++ []) ++ (frame_bytes data_frame ++ (1 ∷ 2 ∷ 3 ∷ [] ++ (9 ∷ []))))

-- A message of 16 bytes that are those of a status request.
abbrev forging_frame : FrameHeader
forging_frame = make_frame (pos 0) 7 9 0 1 16

abbrev forged_mailbox : TimsMailbox
forged_mailbox = connected_mailbox 7 (frame_bytes forging_frame ++ (frame_bytes status_frame ++ []))

receive_too_large_example :
    (receive_raw no_swap always (true ∷ []) forged_mailbox 8
      ≡ (too_large, record forged_mailbox { incoming = frame_bytes status_frame ++ [] }))
    × (receive_raw no_swap always
          (true ∷ [])
          (record forged_mailbox { incoming = frame_bytes status_frame ++ [] })
          8
        ≡ (
          waiting,
          record forged_mailbox {
            incoming = [];
            outgoing = [] ++ frame_bytes (make_frame msg_ok 300 7 0 0 0);
          },
        ))
unfolding make_frame body_length
receive_too_large_example =
    receive_too_large no_swap [] forged_mailbox 8 forging_frame status_frame [] refl refl
      (make_frame-IsFrame 0 7 9 16 (omega arith) (omega arith) (omega arith)) refl (omega arith)
      (make_frame-IsFrame 17 7 300 0 (omega arith) (omega arith) (omega arith)) refl refl

abbrev sender : TimsMailbox
sender = connected_mailbox 9 []

abbrev receiver : TimsMailbox
receiver = connected_mailbox 7 (frame_bytes (data_header sender 7 3) ++ (1 ∷ 2 ∷ 3 ∷ [] ++ []))

send-receive_example :
    (send_raw true true sender (some (1 ∷ 2 ∷ 3 ∷ [])) 7 ≡ (
      success,
      record sender {
        outgoing = [] ++ (frame_bytes (data_header sender 7 3) ++ (1 ∷ 2 ∷ 3 ∷ []));
        sequence_number = 1;
        messages_sent = 1;
      },
    ))
    × (receive_raw no_swap always (true ∷ []) receiver 64 ≡ (
      received
          (record { src = 9; dest = 7; seq_nr = 0; priority = 10; flags = 3 })
          (1 ∷ 2 ∷ 3 ∷ []),
      record receiver { incoming = []; outgoing = []; messages_received = 1 },
    ))
send-receive_example =
    send-receive no_swap (λ xs. refl) sender receiver (1 ∷ 2 ∷ 3 ∷ []) 7 64 [] refl refl
      (omega arith, omega arith, omega arith, omega arith) (omega arith) refl refl (omega arith)
      refl

abbrev fresh_mailbox : TimsMailbox
fresh_mailbox = new_mailbox (record { mailbox_id = 7; max_msg_size = 4096; priority = 10 })
