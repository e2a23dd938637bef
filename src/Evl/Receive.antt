-- ===== src/Evl/Receive.antt =====
-- receive_impl of include/corerat/ipc/evl/evl_backend.hpp on the ring: the wait for a message and what
-- is returned. While it waits the mutex is free, and others post: what a wait brings is an argument.
pub mod Poll
use core_ra_t.Base.{
  ℕ, ◌-◌, ◌%◌, ◌≡◌, arith, Bool, true, false, not, List, [], ◌∷◌, length, ltb, if◌then◌else◌,
}
use core_ra_t.Base.Int.{ℤ, pos, negsuc}
use core_ra_t.Message.Wire.{header_of, sizeof_wire_header}
use core_ra_t.Tims.Mailbox.{TimsMetadata}
use core_ra_t.Evl.Ring.{
  Ring, SlotMeta, has_in_use_slot, take_highest, waits, no_slot, too_big, taken,
}

-- What `evl_wait_event` or `evl_timedwait_event` comes back with: the ring as it is then, -ETIMEDOUT, or
-- another error.
pub data Wait : Type 0 where
  woken : Ring → Wait
  wait_timed_out : Wait
  wait_failed : ℤ → Wait

-- -ETIMEDOUT, an error of the wait, -EMSGSIZE, a slot that is not there, or a message. `waiting` is a
-- call that has come back from every wait in the list and waits again.
pub data Reception : Type 0 where
  timed_out : Reception
  failed : ℤ → Reception
  message_too_large : Reception
  bad_slot : Reception
  received : TimsMetadata → List ℕ → Reception
  waiting : Reception

-- `static_cast<uint8_t>` of an `int8_t`.
abbrev pub to_uint8 : ℤ → ℕ
to_uint8 (pos n) = n % 256
to_uint8 (negsuc n) = 255 - n % 256

unfoldable pub metadata : ℕ → SlotMeta → List ℕ → TimsMetadata
metadata mailbox_id sm bytes =
    let whole = not (ltb (length bytes) sizeof_wire_header) in
    record {
      src = sm.src;
      dest = mailbox_id;
      seq_nr = if whole then (header_of bytes).seq_number else 0;
      priority = to_uint8 sm.priority;
      flags = if whole then (header_of bytes).flags % 256 else 0;
    }

-- What is done with the ring once a slot is in use: the result, and the ring after.
unfoldable pub take_message : ℕ → Ring → ℕ → Reception × Ring
take_message mailbox_id r buffer_size = elim (take_highest r buffer_size) [
  | waits ↦ (waiting, r)
  | no_slot ↦ (bad_slot, r)
  | too_big ↦ (message_too_large, r)
  | taken sm bytes r' ↦ (received (metadata mailbox_id sm bytes) bytes, r')
]

-- The loop around the wait. A wait without a limit returns -1 on any error, `forever`.
unfoldable pub receive_ring : Bool → ℕ → Ring → ℕ → List Wait → Reception × Ring
receive_ring forever mailbox_id r buffer_size [] =
    if has_in_use_slot r then take_message mailbox_id r buffer_size else (waiting, r)
receive_ring forever mailbox_id r buffer_size (woken r' ∷ ws) =
    let rest = receive_ring forever mailbox_id r' buffer_size ws in
    if has_in_use_slot r then take_message mailbox_id r buffer_size else rest
receive_ring forever mailbox_id r buffer_size (wait_timed_out ∷ ws) =
    if has_in_use_slot r
    then take_message mailbox_id r buffer_size
    else (if forever then failed (negsuc 0) else timed_out, r)
receive_ring forever mailbox_id r buffer_size (wait_failed c ∷ ws) =
    if has_in_use_slot r
    then take_message mailbox_id r buffer_size
    else (failed (if forever then negsuc 0 else c), r)

-- A receiver that finds a message does not wait.
pub receive_ring-ready :
    (forever : Bool) (id : ℕ) (r : Ring) (size : ℕ) (ws : List Wait)
    → has_in_use_slot r ≡ true
    → receive_ring forever id r size ws ≡ take_message id r size
unfolding receive_ring
receive_ring-ready forever id r size [] h = ground (arith, h)
receive_ring-ready forever id r size (woken r' ∷ ws) h = ground (arith, h)
receive_ring-ready forever id r size (wait_timed_out ∷ ws) h = ground (arith, h)
receive_ring-ready forever id r size (wait_failed c ∷ ws) h = ground (arith, h)

-- Wake-ups that find every slot free.
abbrev pub AllEmpty : List Ring → Type 0
AllEmpty [] = Unit {0}
AllEmpty (r ∷ rs) = (has_in_use_slot r ≡ false) × AllEmpty rs

abbrev pub wakes : List Ring → List Wait → List Wait
wakes [] ws = ws
wakes (r ∷ rs) ws = woken r ∷ wakes rs ws

-- However often a wait comes back to a ring without a message, the receiver waits on: it takes the
-- message of the first ring that has one, and where the waits end in a timeout first, the result is
-- -ETIMEDOUT, or -1 for a wait without a limit.
pub receive_ring_lem :
    (forever : Bool) (id : ℕ) (r : Ring) (size : ℕ) (spurious : List Ring) (ws : List Wait)
    → has_in_use_slot r ≡ false
    → AllEmpty spurious
    → ((r' : Ring)
        → has_in_use_slot r' ≡ true
        → receive_ring forever id r size (wakes spurious (woken r' ∷ ws)) ≡ take_message id r' size)
      × ((receive_ring forever id r size (wakes spurious (wait_timed_out ∷ ws))).0
          ≡ (if forever then failed (negsuc 0) else timed_out))
unfolding receive_ring
receive_ring_lem forever id r size [] ws e empty =
    (λ r' h. ground (arith, e, receive_ring-ready forever id r' size ws h), ground (arith, e))
receive_ring_lem forever id r size (s ∷ ss) ws e empty =
    let (message, silence) = receive_ring_lem forever id s size ss ws empty.0 empty.1 in
    (λ r' h. ground (arith, e, message r' h), ground (arith, e, silence))
