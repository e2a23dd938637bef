-- ===== src/Mailbox/Tests.antt =====
-- Runs of the mailbox of include/corerat/ipc/mailbox.hpp over the TCP backend.
use core_ra_t.Base.{
  ℕ, suc, ◌<◌, ◌≡◌, refl, arith, Bool, true, none, some, List, [], ◌∷◌, length, length-append,
  if◌then◌else◌,
}
use core_ra_t.Base.Int.{pos}
use core_ra_t.Platform.Duration.{seconds, scale}
use core_ra_t.Message.Wire.{IsHeader, header_bytes, length-header_bytes}
use core_ra_t.Message.Id.{user_defined, of_user, commands, make_message_id, subprefix_byte}
use core_ra_t.Message.Registry.{
  Definitions, auto_assign_ids_process, expand_replies, find_message_def,
}
use core_ra_t.Message.Registry.Lookup.{stamped}
use core_ra_t.Message.Sample.{small_header, small_sertial, small_deserialize, small-Inverts}
use core_ra_t.Tims.Mailbox.{TimsMailbox}
use core_ra_t.Tims.Mailbox as Tims
use core_ra_t.Mailbox.Interface.{Backend, message, IsLifecycle}
use core_ra_t.Mailbox.{Mailbox, not_running, network_error, timeout, clean, receive_any_for}
use core_ra_t.Mailbox.Tims.{
  Network, tims_backend, tims_backend-IsLifecycle, tims_backend-IsDraining, receive_any_for-tims,
}
use core_ra_t.Mailbox.Life.{clean_completes}
use core_ra_t.Mailbox.Delivery.{IsSized, IsPrefixed, receive_any_for-stamped}

abbrev kept : Bool → List ℕ → List ℕ
kept little bytes = bytes

-- A network that takes everything, and on which nothing comes in.
abbrev silent : Network
silent = record {
  connected = λ m. some [];
  takes = λ m. true;
  takes_next = λ m. true;
  takes_status = λ m. true;
  polls = λ m. [];
}

abbrev quiet : Backend TimsMailbox
quiet = tims_backend kept silent

abbrev connected : TimsMailbox
connected = record {
  config = record { mailbox_id = 7; max_msg_size = 64; priority = 10 };
  is_open = true;
  is_initialized = true;
  messages_sent = 0;
  messages_received = 0;
  sequence_number = 0;
  incoming = [];
  outgoing = [];
}

abbrev running_mailbox : Mailbox TimsMailbox
running_mailbox = record { mailbox_id = 7; backend = connected; running = true }

abbrev definitions : Definitions
definitions =
    record {
      payload = 1;
      prefix = user_defined;
      sub_prefix = of_user commands;
      local_id = 5;
      reply = none;
    }
    ∷ []

clean_completes_example :
    (m' : Mailbox TimsMailbox) × (clean quiet (suc (length connected.incoming)) 64 running_mailbox
      ≡ some (if running_mailbox.running then none else some not_running, m'))
clean_completes_example =
    clean_completes quiet (λ m. length m.incoming) (tims_backend-IsDraining kept silent) 64
      running_mailbox

tims_backend-IsLifecycle_example : IsLifecycle (tims_backend kept silent)
tims_backend-IsLifecycle_example = tims_backend-IsLifecycle kept silent

receive_any_for-tims_example :
    (silent.polls connected ≡ []
      → (receive_any_for quiet small_deserialize definitions 64 running_mailbox (seconds (pos 1))).0
        ≡ some network_error)
    × ((rest : List Bool)
        → silent.polls connected ≡ true ∷ rest
        → length connected.incoming < 16
        → (receive_any_for quiet small_deserialize definitions 64 running_mailbox
            (seconds (pos 1))).0
          ≡ some timeout)
unfolding scale
receive_any_for-tims_example =
    receive_any_for-tims kept silent small_deserialize definitions 64 running_mailbox
      (seconds (pos 1)) refl refl refl refl

small-IsSized : IsSized small_sertial
small-IsSized t h h' x = omega (
  arith,
  length-append (header_bytes h) (x ∷ []),
  length-append (header_bytes h') (x ∷ []),
  length-header_bytes h,
  length-header_bytes h',
)

small-IsPrefixed : IsPrefixed small_sertial
small-IsPrefixed t h x = (x ∷ [], refl)

-- A backend whose messages are the same one, over and over.
abbrev one_message : Backend ℕ
one_message = record {
  is_initialized = λ s. true;
  initialize = λ s. (Tims.success, s);
  shutdown = λ s. s;
  send_raw = λ s bytes dest. (Tims.success, s);
  receive_raw_bytes = λ s size wait. (
    message (record { src = 9; dest = 7 }) (small_sertial 1 (stamped small_header 0x01010005 33) 3),
    suc s,
  );
}

abbrev counting_mailbox : Mailbox ℕ
counting_mailbox = record { mailbox_id = 7; backend = 0; running = true }

stamped-IsHeader : IsHeader (stamped small_header 0x01010005 33)
stamped-IsHeader = record {
  msg_type_word = omega (arith);
  msg_size_word = omega (arith);
  timestamp_long = omega (arith);
  seq_number_word = omega (arith);
  dest_word = omega (arith);
  src_word = omega (arith);
  flags_word = omega (arith);
}

receive_any_for-stamped_example :
    receive_any_for one_message small_deserialize definitions 64 counting_mailbox (seconds (pos 1))
    ≡ (
      none,
      some (1, record (stamped small_header 0x01010005 33) { src = 9; dest = 7 }, 3),
      record counting_mailbox { backend = 1 },
    )
unfolding find_message_def expand_replies auto_assign_ids_process subprefix_byte make_message_id
receive_any_for-stamped_example =
    receive_any_for-stamped one_message small_sertial small_deserialize definitions 64
      counting_mailbox (seconds (pos 1)) (record { src = 9; dest = 7 }) 1 0x01010005 33 small_header
      3 small-Inverts small-IsPrefixed (tt, tt) refl stamped-IsHeader refl refl
