-- ===== src/Mailbox.antt =====
-- include/corerat/ipc/mailbox.hpp: the mailbox that programs use, over one of the backends.
-- Parameters: the backend, an interface of its own (Mailbox/Interface), and the library that serialises,
-- whose output is bytes and whose buffers have the sizes that it gives. A message of a payload type is
-- its header and a payload.
pub mod Interface
pub mod Delivery
pub mod EndToEnd
pub mod Life
pub mod Moves
pub mod Name
pub mod Tims
mod Tests
use core_ra_t.Base.{
  ℕ, zero, suc, ◌%◌, ◌^◌, Bool, true, false, not, ◌&&◌, ◌||◌, Option, none, some, List, [], ◌∷◌,
  length, ltb, ◌==◌, if◌then◌else◌,
}
use core_ra_t.Base.Int.{ℤ, pos, negsuc}
use core_ra_t.Platform.Duration.{Duration, is_positive, milliseconds}
use core_ra_t.Message.Wire.{WireHeader, header_of, sizeof_wire_header}
use core_ra_t.Message.Registry.{Definitions, processed, get_message_id, visit}
use core_ra_t.Message.Registry as Registry
use core_ra_t.Tims.Mailbox.{TimsResult, success, error_not_init}
use core_ra_t.Mailbox.Interface.{Backend, Metadata, Outcome, code, message}

pub data MailboxError : Type 0 where
  not_initialized invalid_message timeout queue_full queue_empty serialization_error network_error
        invalid_destination already_running not_running :
      MailboxError

-- `MailboxResult<void>`: an error, or none.
abbrev pub MailboxResult : Type 0
MailboxResult = Option MailboxError

pub record Mailbox (S : Type 0) : Type 0 where
  pub mailbox_id : ℕ
  pub backend : S
  pub running : Bool

abbrev pub is_success : TimsResult → Bool
is_success success = true
is_success _ = false

-- The reply's header is memory that is not initialised, `fresh`, but for the time and the addresses.
abbrev pub reply_header : {S : Type 0} → Mailbox S → WireHeader → WireHeader → ℕ → WireHeader
reply_header m fresh request now = record fresh {
  timestamp = now;
  src = m.mailbox_id;
  dest = request.src;
}

-- The metadata go over the addresses in the header.
abbrev pub with_addresses : Metadata → WireHeader → WireHeader
with_addresses meta h = record h { src = meta.src; dest = meta.dest }

-- The error of a receive that brought no bytes: `bytes == -1`, and the other codes.
abbrev pub code_error : Duration → ℤ → MailboxError
code_error wait (negsuc zero) = timeout
code_error wait (negsuc (suc n)) = if not (is_positive wait) then timeout else network_error
code_error wait (pos n) = if not (is_positive wait) then timeout else network_error

module _ {S : Type 0} (b : Backend S) where
  unfoldable pub start : Mailbox S → MailboxResult × Mailbox S
  start m =
      if m.running
      then (some already_running, m)
      else (let (r, s) = b.initialize m.backend in
          if is_success r
          then (none, record m { backend = s; running = true })
          else (some not_initialized, record m { backend = s }))

  unfoldable pub stop : Mailbox S → Mailbox S
  stop m = if m.running then record m { running = false; backend = b.shutdown m.backend } else m

  module _ {P : Type 0} (sertial : ℕ → WireHeader → P → List ℕ) where
    -- `send` of the backend: it serialises the message again, and the header gets the size again.
    unfoldable pub backend_send : S → ℕ → WireHeader → P → ℕ → TimsResult × S
    backend_send s t header payload dest =
        if not (b.is_initialized s)
        then (error_not_init, s)
        else b.send_raw s (sertial t header payload) dest

    -- A payload type that is not registered, which does not compile, is not sent here.
    unfoldable pub send :
        Definitions → Mailbox S → ℕ → WireHeader → P → ℕ → MailboxResult × Mailbox S
    send defs m t header payload dest =
        if not m.running
        then (some not_running, m)
        else if dest == 0
        then (some invalid_destination, m)
        else (elim (Registry.serialize sertial (processed defs) t header payload) [
          | none ↦ (some serialization_error, m)
          | some (bytes, stamped) ↦
              let (r, s) = backend_send m.backend t stamped payload dest in
              let m' = record m { backend = s } in
              (if is_success r then none else some network_error, m')
        ])

    unfoldable pub send_reply :
        Definitions → Mailbox S → WireHeader → WireHeader → ℕ → ℕ → P → MailboxResult × Mailbox S
    send_reply defs m request fresh now t reply =
        send defs m t (reply_header m fresh request now) reply request.src

  module _ {P : Type 0} (deserialize : ℕ → List ℕ → Option (WireHeader × P)) where
    -- `receive` of a payload type into a buffer of its size; `none` is false.
    unfoldable pub receive : ℕ → Mailbox S → ℕ → Duration → Option (WireHeader × P) × Mailbox S
    receive buffer_size m t wait =
        if not m.running
        then (none, m)
        else (let (outcome, s) = b.receive_raw_bytes m.backend buffer_size wait in
            let m' = record m { backend = s } in
            elim outcome [
              | code c ↦ (none, m')
              | message meta bytes ↦ elim (deserialize t bytes) [
                | none ↦ (none, m')
                | some (h, x) ↦ (some (with_addresses meta h, x), m')
              ]
            ])

    abbrev pub try_receive : ℕ → Mailbox S → ℕ → Option (WireHeader × P) × Mailbox S
    try_receive buffer_size m t = receive buffer_size m t (milliseconds (pos 0))

    -- What the visitor is called with, if it is, comes with the result.
    unfoldable pub receive_any_for :
        Definitions
        → ℕ
        → Mailbox S
        → Duration
        → MailboxResult × Option (ℕ × WireHeader × P) × Mailbox S
    receive_any_for defs buffer_size m wait =
        if not m.running
        then (some not_running, none, m)
        else (let (outcome, s) = b.receive_raw_bytes m.backend buffer_size wait in
            let m' = record m { backend = s } in
            elim outcome [
              | code c ↦ (some (code_error wait c), none, m')
              | message meta bytes ↦
                  if ltb (length bytes) sizeof_wire_header
                  then (some invalid_message, none, m')
                  else (elim (visit deserialize (processed defs) (header_of bytes).msg_type bytes) [
                    | none ↦ (some invalid_message, none, m')
                    | some (t, (h, x)) ↦ (none, some (t, with_addresses meta h, x), m')
                  ])
            ])

  -- The loop of `clean`, on fuel: what is left of the backend once a receive brings nothing.
  unfoldable pub drain : ℕ → ℕ → S → Option S
  drain zero buffer_size s = none
  drain (suc fuel) buffer_size s =
      let (outcome, s') = b.receive_raw_bytes s buffer_size (milliseconds (pos 10)) in
      let rest = drain fuel buffer_size s' in
      elim outcome [ code c ↦ some s' | message meta bytes ↦ rest ]

  unfoldable pub clean : ℕ → ℕ → Mailbox S → Option (MailboxResult × Mailbox S)
  clean fuel buffer_size m =
      if not m.running
      then some (some not_running, m)
      else (elim (drain fuel buffer_size m.backend) [
        | none ↦ none
        | some s ↦ some (none, record m { backend = s })
      ])
