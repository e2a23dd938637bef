-- ===== src/Evl/Receive/Poll.antt =====
-- receive_impl of include/corerat/ipc/evl/evl_backend.hpp in its three modes: the datagrams of the network
-- mode, and the poll of the ring's event and the cross-buffer before the ring is read. What happens
-- outside while it waits is an argument.
pub mod Sources
use core_ra_t.Base.{
  ℕ, ◌+◌, ◌%◌, ◌^◌, ◌≡◌, ◌≢◌, ◌<◌, ◌≤◌, refl, arith, Bool, true, false, not, ◌&&◌, ◌||◌, Option,
  none, some, List, [], ◌∷◌, ◌++◌, length, ltb, ◌==◌, if◌then◌else◌,
}
use core_ra_t.Base.Int.{ℤ, pos, negsuc}
use core_ra_t.Platform.Duration.{Duration, Timespec, plus, is_negative, from_timespec, to_timespec}
use core_ra_t.Tims.Mailbox.{TimsMetadata}
use core_ra_t.Message.Wire.{header_of, sizeof_wire_header}
use core_ra_t.Evl.Lifecycle.{Mode, local, public, network}
use core_ra_t.Evl.Network.{receive_oob_udp}
use core_ra_t.Evl.Ring.{Ring, has_in_use_slot}
use core_ra_t.Evl.Receive.{
  Wait, woken, Reception, timed_out, failed, received, waiting, receive_ring, take_message,
  receive_ring-ready,
}

-- What the poll finds ready: the cross-buffer, with the bytes that a read of it brings (none where it
-- fails or ends), the event of the ring, or another descriptor.
pub data Event : Type 0 where
  xbuf_ready : List ℕ → Event
  ring_ready : Event
  other_ready : Event

-- The poll ends with events, or with a number that is not positive.
pub data Poll : Type 0 where
  polled : List Event → Poll
  poll_ended : ℤ → Poll

-- A datagram, or a number that is not positive.
pub data Arrival : Type 0 where
  datagram : List ℕ → Arrival
  no_datagram : ℤ → Arrival

-- What happens while the call waits: the ring is what others have made of it once the poll is over.
pub record Outside : Type 0 where
  pub now : Timespec
  pub arrival : Duration → Arrival
  pub poll : Option Timespec → Poll
  pub ring_then : Ring
  pub waits : Option Timespec → List Wait

pub record Receiver : Type 0 where
  pub created : Bool
  pub mode : Mode
  pub mailbox_id : ℕ
  pub ring : Ring
  pub has_xbuf : Bool
  pub has_poll : Bool
  pub poll_setup_done : Bool
  pub messages_received : ℕ

-- The absolute deadline, if the timeout is not negative.
unfoldable pub deadline : Timespec → Duration → Option Timespec
deadline now timeout =
    if is_negative timeout then none else some (to_timespec (plus (from_timespec now) timeout))

-- The loop over the events: the first read of the cross-buffer that brings bytes, up to the event of the
-- ring.
unfoldable pub poll_loop : List Event → Option (List ℕ)
poll_loop [] = none
poll_loop (xbuf_ready [] ∷ events) = poll_loop events
poll_loop (xbuf_ready (b ∷ bytes) ∷ events) = some (b ∷ bytes)
poll_loop (ring_ready ∷ events) = none
poll_loop (other_ready ∷ events) = poll_loop events

-- -ETIMEDOUT is -110.
is_etimedout : ℤ → Bool
is_etimedout (pos n) = false
is_etimedout (negsuc n) = n == 109

unfoldable pub poll_code : ℤ → Reception
unfolding is_etimedout
poll_code (pos n) = timed_out
poll_code (negsuc n) = if is_etimedout (negsuc n) then timed_out else failed (negsuc n)

unfoldable pub counted : Reception × Receiver → Reception × Receiver
counted (received meta bytes, m) =
    (received meta bytes, record m { messages_received = (m.messages_received + 1) % 2 ^ 64 })
counted (outcome, m) = (outcome, m)

-- The poll group is set up by the first call.
unfoldable pub set_up : Receiver → Receiver
set_up m = elim m.mode [
  | public ↦ if m.has_xbuf then record m { poll_setup_done = true } else m
  | _ ↦ m
]

unfoldable pub polls_both : Receiver → Bool
polls_both m = elim m.mode [ public ↦ m.has_poll && m.poll_setup_done | _ ↦ false ]

unfoldable pub read_ring : Receiver → Duration → Outside → ℕ → Reception × Receiver
read_ring m timeout out size =
    let (outcome, r) =
      receive_ring (is_negative timeout) m.mailbox_id out.ring_then size
        (out.waits (deadline out.now timeout)) in
    counted (outcome, record m { ring = r })

-- The metadata that a read of the cross-buffer leaves with the caller: those of its header, or where it
-- is shorter than one, what was there before.
unfoldable pub xbuf_metadata : TimsMetadata → List ℕ → TimsMetadata
xbuf_metadata meta bytes = if ltb (length bytes) sizeof_wire_header then meta else record {
  src = (header_of bytes).src;
  dest = (header_of bytes).dest;
  seq_nr = (header_of bytes).seq_number;
  priority = 0;
  flags = (header_of bytes).flags % 256;
}

unfoldable pub receive_both :
    Receiver → Duration → Outside → ℕ → TimsMetadata → Reception × Receiver
receive_both m timeout out size meta = elim (out.poll (deadline out.now timeout)) [
  | poll_ended n ↦ (poll_code n, m)
  | polled events ↦ elim (poll_loop events) [
    | some bytes ↦ counted (received (xbuf_metadata meta bytes) bytes, m)
    | none ↦ read_ring m timeout out size
  ]
]

unfoldable pub receive_datagram : Receiver → Duration → Outside → Reception × Receiver
receive_datagram m timeout out = elim (out.arrival timeout) [
  | no_datagram n ↦ (failed n, m)
  | datagram bytes ↦ counted (received (receive_oob_udp bytes) bytes, m)
]

-- `meta` is what the caller's metadata are before the call.
unfoldable pub receive_impl :
    Receiver → Duration → Outside → ℕ → TimsMetadata → Reception × Receiver
receive_impl m timeout out size meta =
    let m1 = set_up m in
    if not m.created then (failed (negsuc 0), m) else (elim m.mode [
      | network ↦ receive_datagram m timeout out
      | _ ↦
          if polls_both m1
          then receive_both m1 timeout out size meta
          else read_ring m1 timeout out size
    ])
