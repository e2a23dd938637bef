-- ===== src/Mailbox/EndToEnd/Tests.antt =====
-- One message from a mailbox to another, through a router with two connections.
use core_ra_t.Base.{
  ℕ, ◌≡◌, refl, arith, Bool, true, false, none, some, List, [], ◌∷◌, ◌++◌, length-append,
}
use core_ra_t.Base.Int.{pos}
use core_ra_t.Platform.Duration.{seconds}
use core_ra_t.Message.Wire.{IsHeader, WireHeader, header_bytes, length-header_bytes}
use core_ra_t.Message.Id.{user_defined, of_user, commands, make_message_id, subprefix_byte}
use core_ra_t.Message.Registry.{
  Definitions, auto_assign_ids_process, expand_replies, find_message_def,
}
use core_ra_t.Message.Registry.Lookup.{stamped}
use core_ra_t.Message.Sample.{small_header, small_sertial, small_deserialize, small-Inverts}
use core_ra_t.Tims.Protocol.{frame_bytes, u32_bytes}
use core_ra_t.Tims.Mailbox.{TimsMailbox, new_mailbox, register_frame, data_header}
use core_ra_t.Router.Registry
use core_ra_t.Router.Tcp.{Router, Link, connection, lookup_connection, link_open, handle_frame}
use core_ra_t.Router.Tcp.Sending.{emitting}
use core_ra_t.Mailbox.{Mailbox, send, receive_any_for}
use core_ra_t.Mailbox.Tims.{Network, tims_backend}
use core_ra_t.Mailbox.Delivery.{IsSized, IsPrefixed}
use core_ra_t.Mailbox.EndToEnd.{after_send, after_receive, send-deliver-receive}

abbrev kept : Bool → List ℕ → List ℕ
kept little bytes = bytes

abbrev one_frame : Network
one_frame = record {
  connected = λ m. some [];
  takes = λ m. true;
  takes_next = λ m. true;
  takes_status = λ m. true;
  polls = λ m. true ∷ [];
}

abbrev all_up : Link → Bool
all_up l = true

abbrev router : Router
router = record {
  registry = [];
  connections =
      record { index = 0; is_peer = false; is_open = true; watchdog_enabled = true }
      ∷ record { index = 1; is_peer = false; is_open = true; watchdog_enabled = true }
      ∷ [];
  local_mailboxes = [];
  upstream_open = false;
  system_connections = [];
  max_msg_size = 64;
  next_index = 2;
  sent = [];
}

abbrev connected : ℕ → List ℕ → TimsMailbox
connected id stream =
    record (new_mailbox (record { mailbox_id = id; max_msg_size = 64; priority = 10 })) {
      is_open = true;
      is_initialized = true;
      incoming = stream;
    }

abbrev definitions : Definitions
definitions =
    record {
      payload = 1;
      prefix = user_defined;
      sub_prefix = of_user commands;
      local_id = 5;
      reply = none;
    }
    ∷ []

abbrev full_header : WireHeader
full_header = stamped small_header 0x01010005 33

abbrev bytes : List ℕ
bytes = small_sertial 1 full_header 3

abbrev sender : Mailbox TimsMailbox
sender = record { mailbox_id = 9; backend = connected 9 []; running = true }

abbrev receiver : Mailbox TimsMailbox
receiver = record {
  mailbox_id = 7;
  backend = connected 7 (frame_bytes (data_header (connected 9 []) 7 33) ++ (bytes ++ []));
  running = true;
}

full_header-IsHeader : IsHeader full_header
full_header-IsHeader = record {
  msg_type_word = omega (arith);
  msg_size_word = omega (arith);
  timestamp_long = omega (arith);
  seq_number_word = omega (arith);
  dest_word = omega (arith);
  src_word = omega (arith);
  flags_word = omega (arith);
}

small-IsSized : IsSized small_sertial
small-IsSized t h h' x = omega (
  arith,
  length-append (header_bytes h) (x ∷ []),
  length-append (header_bytes h') (x ∷ []),
  length-header_bytes h,
  length-header_bytes h',
)

small-IsPrefixed : IsPrefixed small_sertial
small-IsPrefixed t h x = (x ∷ [], refl)

send-deliver-receive_example :
    (send (tims_backend kept one_frame) small_sertial definitions sender 1 small_header 3 7 ≡ (
      none,
      record sender {
        backend = after_send (connected 9 []) (data_header (connected 9 []) 7 33) bytes;
      },
    ))
    × ((q : Router) × (q
          ≡ handle_frame all_up router 0 (register_frame receiver.backend) (some (u32_bytes 7)))
        × (handle_frame all_up q 1 (data_header (connected 9 []) 7 33) (some bytes)
            ≡ emitting q (
                record {
                  link = connection 0;
                  header = data_header (connected 9 []) 7 33;
                  body = bytes;
                }
                ∷ [])))
    × (receive_any_for
          (tims_backend kept one_frame)
          small_deserialize
          definitions
          64
          receiver
          (seconds (pos 1))
        ≡ (
          none,
          some (1, record full_header { src = 9; dest = 7 }, 3),
          record receiver { backend = after_receive receiver.backend [] },
        ))
unfolding link_open lookup_connection find_message_def expand_replies auto_assign_ids_process
    subprefix_byte make_message_id Registry.find header_bytes
send-deliver-receive_example =
    send-deliver-receive kept (λ xs. refl) small_sertial small_deserialize one_frame all_up router 0
      1 sender receiver definitions 1 0x01010005 64 small_header 3 (seconds (pos 1)) [] []
      small-Inverts small-IsSized small-IsPrefixed (tt, tt) refl full_header-IsHeader
      (refl, refl, refl) (refl, refl, refl) refl refl refl refl (omega arith) refl
      (λ e. omega (arith, e)) (omega arith, omega arith, omega arith, omega arith) (omega arith)
      (omega arith) (omega arith) refl
