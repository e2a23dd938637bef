-- ===== src/Evl/Tests.antt =====
-- Runs of the public and the network mode of include/corerat/ipc/evl/evl_backend.hpp.
use core_ra_t.Base.{
  ℕ, ◌+◌, ◌%◌, ◌^◌, ◌<◌, length, ◌≡◌, ◌≢◌, refl, arith, true, false, some, List, [], ◌∷◌, ◌++◌,
}
use core_ra_t.Base.Int.{pos, negsuc, ltb_ℤ}
use core_ra_t.Platform.Duration.{milliseconds}
use core_ra_t.Evl.Inband.{Granted, Released, Stage, enter, leave, leave-enter}
use core_ra_t.Evl.Names.{shm_name, mutex_name, event_name, xbuf_name, names-distinct}
use core_ra_t.Evl.Receive.{Reception, received, timed_out, failed}
use core_ra_t.Evl.Receive.Poll.{
  Event, xbuf_ready, ring_ready, other_ready, Outside, Receiver, no_datagram, polled, poll_ended,
  Poll, deadline, receive_impl,
}
use core_ra_t.Evl.Receive.Poll.Sources.{TakesHighest, receive_impl_lem}
use core_ra_t.Evl.Registry.{registry_table, registry_insert, registry_find}
use core_ra_t.Evl.Registry.Update.{find-insert}
use core_ra_t.Evl.Registry.Room.{HasRoom-of_used}
use core_ra_t.Evl.Registry.Refine.{registry_table-IsChained, used-registry_table}
use core_ra_t.Evl.Ring.{allocate_ring, meta_at, int8_min}
use core_ra_t.Evl.Local.{EvlMailbox}
use core_ra_t.Evl.Ring.Valid.{IsValid}
use core_ra_t.Message.Wire.{WireHeader, IsHeader, header_bytes}
use core_ra_t.Tims.Mailbox.{TimsMetadata, success, error_init}
use core_ra_t.Evl.Lifecycle.{
  Node, Answers, public, no_resources, initialize, shutdown, initialize-shutdown,
}
use core_ra_t.Evl.Public.{PublicMailbox, local_target}

abbrev mailbox : ℕ → EvlMailbox
mailbox id = record {
  mailbox_id = id;
  created = true;
  max_msg_size = 16;
  messages_sent = 0;
  ring = allocate_ring 4 16;
}

-- The mailbox at position 1 is public, and 7 is a mailbox of its process.
abbrev sender : PublicMailbox
sender = record {
  process = record {
    table = registry_insert registry_table 7 (some 0);
    mailboxes = mailbox 7 ∷ mailbox 9 ∷ [];
  };
  self = 1;
  remote_handles = record { handles = []; lru_counter = 0 };
  mapped = [];
  bridged = [];
}

finds_7 : registry_find (registry_insert registry_table 7 (some 0)) 7 ≡ some 0
finds_7 =
    find-insert registry_table 7 (some 0) 7 registry_table-IsChained (λ e. omega (arith, e))
      (HasRoom-of_used registry_table 7 registry_table-IsChained.full_size
        (omega (arith, used-registry_table)))

finds_target : local_target sender.process 7 ≡ some 0
finds_target = ground (arith, finds_7)

-- A public mailbox that is not initialized, on a system that grants everything but the cross-buffer.
abbrev fresh_node : Node
fresh_node = record {
  mailbox_id = 7;
  self = 0;
  mode = public;
  created = false;
  resources = no_resources;
  table = registry_table;
  remote_handles = record { handles = []; lru_counter = 0 };
}

abbrev no_device : Answers
no_device = record {
  ring = true;
  mutex = true;
  event = true;
  device = false;
  poll_group = true;
  socket = true;
}

initialize-shutdown_example :
    ((initialize fresh_node no_device).0 ≡ success
      → ((shutdown (initialize fresh_node no_device).1).created ≡ false)
        × ((shutdown (initialize fresh_node no_device).1).resources ≡ no_resources))
    × (fresh_node.mode ≡ public
        → no_device.ring ≡ true
        → no_device.mutex ≡ true
        → no_device.event ≡ true
        → no_device.device ≡ false
        → ((initialize fresh_node no_device).0 ≡ error_init)
          × ((shutdown (initialize fresh_node no_device).1).resources
              ≡ record no_resources { ring = true; mutex = true; event = true }))
initialize-shutdown_example = initialize-shutdown fresh_node no_device refl refl

-- A public mailbox whose cross-buffer has 3 bytes, fewer than a header, behind a read that fails.
abbrev bridged_mailbox : Receiver
bridged_mailbox = record {
  created = true;
  mode = public;
  mailbox_id = 7;
  ring = allocate_ring 2 4;
  has_xbuf = true;
  has_poll = true;
  poll_setup_done = false;
  messages_received = 4;
}

abbrev bridge_events : List Event
bridge_events = xbuf_ready [] ∷ other_ready ∷ []

abbrev bridge : Outside
bridge = record {
  now = record { tv_sec = pos 1; tv_nsec = pos 0 };
  arrival = λ d. no_datagram (negsuc 0);
  poll = λ d. polled (bridge_events ++ (xbuf_ready (5 ∷ 6 ∷ 7 ∷ []) ∷ ring_ready ∷ []));
  ring_then = allocate_ring 2 4;
  waits = λ d. [];
}

abbrev passed_in : TimsMetadata
passed_in = record { src = 1; dest = 2; seq_nr = 3; priority = 4; flags = 5 }

receive_impl_lem_example :
    let poll : Poll = bridge.poll (deadline bridge.now (milliseconds (pos 10))) in
    let got : Reception × Receiver =
      receive_impl bridged_mailbox (milliseconds (pos 10)) bridge 64 passed_in in
    let ready : Receiver = record bridged_mailbox { poll_setup_done = true } in
    let seen : Receiver = record ready { messages_received = (4 + 1) % 2 ^ 64 } in
    ((h : WireHeader) (payload : List ℕ)
      → IsHeader h
      → poll ≡ polled (bridge_events ++ (xbuf_ready (header_bytes h ++ payload) ∷ ring_ready ∷ []))
      → got ≡ (
        received
            (record {
              src = h.src;
              dest = h.dest;
              seq_nr = h.seq_number;
              priority = 0;
              flags = h.flags % 256;
            })
            (header_bytes h ++ payload),
        seen,
      ))
    × ((bytes : List ℕ)
        → 0 < length bytes
        → length bytes < 32
        → poll ≡ polled (bridge_events ++ (xbuf_ready bytes ∷ ring_ready ∷ []))
        → got ≡ (received passed_in bytes, seen))
    × ((d : ℕ)
        → poll ≡ polled (bridge_events ++ (ring_ready ∷ ring_ready ∷ []))
        → IsValid bridge.ring_then
        → d < bridge.ring_then.capacity
        → (meta_at bridge.ring_then d).in_use ≡ true
        → ltb_ℤ int8_min (meta_at bridge.ring_then d).priority ≡ true
        → TakesHighest bridged_mailbox 64 bridge.ring_then got)
    × (poll ≡ poll_ended (negsuc 109) → got ≡ (timed_out, ready))
    × ((k : ℕ) → k ≢ 109 → poll ≡ poll_ended (negsuc k) → got ≡ (failed (negsuc k), ready))
receive_impl_lem_example =
    receive_impl_lem bridged_mailbox (milliseconds (pos 10)) bridge 64 passed_in bridge_events
      (ring_ready ∷ []) (refl, refl, refl, refl) tt

names-distinct_example :
    (shm_name 7 ≢ shm_name 16842757)
    × (mutex_name 7 ≢ mutex_name 16842757)
    × (event_name 7 ≢ event_name 16842757)
    × (xbuf_name 7 ≢ xbuf_name 16842757)
names-distinct_example =
    names-distinct 7 16842757 (omega arith) (omega arith) (λ e. omega (arith, e))

-- A thread on the out-of-band stage that libevl lets switch to in-band, and not back.
leave-enter_example :
    let granted : Granted = record {
      has_self = true;
      clears = true;
      switches = true;
      sets = true;
    } in
    let kept : Released = record { switches = false; sets = true } in
    let thread : Stage = record { inband = false; hmsig = true } in
    let (scope, inside) = enter granted thread in
    let outside = leave kept scope inside in
    (scope.switched ≡ inside.inband)
    × (outside.inband ≡ true)
    × (outside.hmsig ≡ true)
    × (kept.switches ≡ true → kept.sets ≡ true → outside ≡ thread)
leave-enter_example =
    leave-enter (record { has_self = true; clears = true; switches = true; sets = true })
      (record { switches = false; sets = true }) (record { inband = false; hmsig = true })
