-- ===== src/Evl/Receive/Poll/Sources.antt =====
-- Which of its two sources a public mailbox of include/corerat/ipc/evl/evl_backend.hpp receives from.
use core_ra_t.Base.{
  ℕ, ◌+◌, ◌%◌, ◌^◌, ◌<◌, ◌≡◌, refl, arith, length, length-append, sym, subst, ltb, ◌≢◌, Bool-cases,
  inl, inr, if◌then◌else◌, true, List, [], ◌∷◌, ◌++◌,
}
use core_ra_t.Base.Int.{negsuc, ltb_ℤ}
use core_ra_t.Platform.Duration.{Duration, is_negative}
use core_ra_t.Evl.Lifecycle.{public}
use core_ra_t.Message.Wire.{
  WireHeader, IsHeader, header_bytes, header_of-header_bytes, length-header_bytes,
}
use core_ra_t.Tims.Mailbox.{TimsMetadata}
use core_ra_t.Evl.Ring.{Ring, has_in_use_slot, meta_at, int8_min}
use core_ra_t.Evl.Ring.Valid.{IsValid, slot_bytes}
use core_ra_t.Evl.Ring.Post.{freed}
use core_ra_t.Evl.Ring.Take.{IsHighest, take_lem, has_in_use_slot-true}
use core_ra_t.Evl.Receive.{
  Reception, failed, message_too_large, to_uint8, metadata, timed_out, received, take_message,
  receive_ring-ready,
}
use core_ra_t.Evl.Receive.Poll.{
  Event, Poll, xbuf_ready, ring_ready, other_ready, polled, poll_ended, Outside, Receiver, deadline,
  poll_loop, poll_code, counted, set_up, xbuf_metadata, polls_both, read_ring, receive_both,
  receive_impl,
}

-- Events that bring nothing: reads of the cross-buffer that fail, and other descriptors.
abbrev pub AllQuiet : List Event → Type 0
AllQuiet [] = Unit {0}
AllQuiet (xbuf_ready [] ∷ events) = AllQuiet events
AllQuiet (xbuf_ready (b ∷ bytes) ∷ events) = ⊥
AllQuiet (ring_ready ∷ events) = ⊥
AllQuiet (other_ready ∷ events) = AllQuiet events

poll_loop-append :
    (before events : List Event) → AllQuiet before → poll_loop (before ++ events) ≡ poll_loop events
unfolding poll_loop
poll_loop-append [] events h = refl
poll_loop-append (xbuf_ready [] ∷ before) events h = poll_loop-append before events h
poll_loop-append (xbuf_ready (b ∷ bytes) ∷ before) events h = absurd h
poll_loop-append (ring_ready ∷ before) events h = absurd h
poll_loop-append (other_ready ∷ before) events h = poll_loop-append before events h

-- A public mailbox with a cross-buffer and a poll group.
abbrev pub IsBridged : Receiver → Type 0
IsBridged m = (m.created ≡ true) × (m.mode ≡ public) × (m.has_xbuf ≡ true) × (m.has_poll ≡ true)

set_up_lem : (m : Receiver) → IsBridged m → set_up m ≡ record m { poll_setup_done = true }
unfolding set_up
set_up_lem m (c, p, x, l) = ground (arith, p, x)

polls_both_lem :
    (m : Receiver) → IsBridged m → polls_both (record m { poll_setup_done = true }) ≡ true
unfolding polls_both
polls_both_lem m (c, p, x, l) = ground (arith, p, l)

module _ (m : Receiver) (timeout : Duration) (out : Outside) (size : ℕ) (meta : TimsMetadata)
    (b : IsBridged m) where
  ready : Receiver
  ready = record m { poll_setup_done = true }

  bridged : receive_impl m timeout out size meta ≡ receive_both ready timeout out size meta
  unfolding receive_impl ready
  bridged = ground (arith, b.0, b.1, set_up_lem m b, polls_both_lem m b)

  from_xbuf :
      (before after : List Event) (bytes : List ℕ)
      → AllQuiet before
      → 0 < length bytes
      → out.poll (deadline out.now timeout) ≡ polled (before ++ (xbuf_ready bytes ∷ after))
      → receive_impl m timeout out size meta ≡ (
        received (xbuf_metadata meta bytes) bytes,
        record ready { messages_received = (m.messages_received + 1) % 2 ^ 64 },
      )
  unfolding receive_both counted poll_loop ready
  from_xbuf before after [] quiet some_byte e = absurd (omega (arith, some_byte))
  from_xbuf before after (byte ∷ bytes) quiet some_byte e =
      ground (arith, bridged, e, poll_loop-append before (xbuf_ready (byte ∷ bytes) ∷ after) quiet)

  from_ring :
      (before after : List Event)
      → AllQuiet before
      → out.poll (deadline out.now timeout) ≡ polled (before ++ (ring_ready ∷ after))
      → has_in_use_slot out.ring_then ≡ true
      → receive_impl m timeout out size meta
        ≡ counted (
          (take_message m.mailbox_id out.ring_then size).0,
          record ready { ring = (take_message m.mailbox_id out.ring_then size).1 },
        )
  unfolding receive_both read_ring poll_loop ready
  from_ring before after quiet e full = cc (
    bridged,
    e,
    poll_loop-append before (ring_ready ∷ after) quiet,
    receive_ring-ready (is_negative timeout) m.mailbox_id out.ring_then size
        (out.waits (deadline out.now timeout)) full,
  )

-- The metadata of a whole message are those of its header.
xbuf_metadata_lem :
    (meta : TimsMetadata) (h : WireHeader) (payload : List ℕ)
    → IsHeader h
    → xbuf_metadata meta (header_bytes h ++ payload) ≡ record {
      src = h.src;
      dest = h.dest;
      seq_nr = h.seq_number;
      priority = 0;
      flags = h.flags % 256;
    }
unfolding xbuf_metadata
xbuf_metadata_lem meta h payload v = ground (
  arith,
  length-append (header_bytes h) payload,
  length-header_bytes h,
  header_of-header_bytes h payload v,
)

message_bytes : (h : WireHeader) (payload : List ℕ) → 0 < length (header_bytes h ++ payload)
message_bytes h payload =
    omega (arith, length-append (header_bytes h) payload, length-header_bytes h)

-- What a receive from the ring gives: of a slot of the highest priority, -EMSGSIZE where the buffer is too
-- small for its message, which stays, or the message, whose slot alone is freed.
abbrev pub TakesHighest : Receiver → ℕ → Ring → Reception × Receiver → Type 0
TakesHighest m size r outcome =
    (idx : ℕ) × (meta : TimsMetadata) × IsHighest r idx
    × (meta.src ≡ (meta_at r idx).src)
    × (meta.dest ≡ m.mailbox_id)
    × (meta.priority ≡ to_uint8 (meta_at r idx).priority)
    × (outcome ≡ (
        if ltb size (meta_at r idx).size
        then (message_too_large, record m { poll_setup_done = true; ring = r })
        else (
          received meta (slot_bytes r idx),
          record m {
            poll_setup_done = true;
            ring = freed r idx;
            messages_received = (m.messages_received + 1) % 2 ^ 64;
          },
        )))

take_message-TakesHighest :
    (m : Receiver) (size : ℕ) (r : Ring) (d : ℕ)
    → IsValid r
    → d < r.capacity
    → (meta_at r d).in_use ≡ true
    → ltb_ℤ int8_min (meta_at r d).priority ≡ true
    → TakesHighest m size r (
        counted (
          (take_message m.mailbox_id r size).0,
          record m { poll_setup_done = true; ring = (take_message m.mailbox_id r size).1 },
        ))
unfolding counted take_message metadata
take_message-TakesHighest m size r d v lt u above =
    let (idx, high, t) = take_lem r size d v lt u above in
    (
      idx,
      metadata m.mailbox_id (meta_at r idx) (slot_bytes r idx),
      high,
      refl,
      refl,
      refl,
      elim (Bool-cases (ltb size (meta_at r idx).size)) [
        | inl big ↦ ground (arith, t, big)
        | inr fits ↦ ground (arith, t, fits)
      ],
    )

-- A receive of a public mailbox with a cross-buffer and a poll group. Where the cross-buffer brings bytes
-- before the ring's event, behind reads that fail or other descriptors, it returns these and leaves the
-- ring alone: with the sender, the destination, the number and the low eight flags of their header, or,
-- if they are shorter than a header, with the metadata that the caller passed in. Where the ring's event
-- comes first and a slot of the well-formed ring holds a message of a priority above -128, it turns to a
-- slot of the highest priority, whatever the cross-buffer has: it returns its message and frees the slot,
-- or -EMSGSIZE where the buffer is too small. Only a returned message is counted. Where the poll ends
-- with an error, that error is returned and nothing but the set-up of the poll group has changed;
-- -ETIMEDOUT is one of them.
pub receive_impl_lem :
    (m : Receiver) (timeout : Duration) (out : Outside) (size : ℕ) (meta : TimsMetadata)
    (before after : List Event)
    → IsBridged m
    → AllQuiet before
    → let poll : Poll = out.poll (deadline out.now timeout) in
      let got : Reception × Receiver = receive_impl m timeout out size meta in
      let ready : Receiver = record m { poll_setup_done = true } in
      let seen : Receiver = record ready {
        messages_received = (m.messages_received + 1) % 2 ^ 64;
      } in
      ((h : WireHeader) (payload : List ℕ)
        → IsHeader h
        → poll ≡ polled (before ++ (xbuf_ready (header_bytes h ++ payload) ∷ after))
        → got ≡ (
          received
              (record {
                src = h.src;
                dest = h.dest;
                seq_nr = h.seq_number;
                priority = 0;
                flags = h.flags % 256;
              })
              (header_bytes h ++ payload),
          seen,
        ))
      × ((bytes : List ℕ)
          → 0 < length bytes
          → length bytes < 32
          → poll ≡ polled (before ++ (xbuf_ready bytes ∷ after))
          → got ≡ (received meta bytes, seen))
      × ((d : ℕ)
          → poll ≡ polled (before ++ (ring_ready ∷ after))
          → IsValid out.ring_then
          → d < out.ring_then.capacity
          → (meta_at out.ring_then d).in_use ≡ true
          → ltb_ℤ int8_min (meta_at out.ring_then d).priority ≡ true
          → TakesHighest m size out.ring_then got)
      × (poll ≡ poll_ended (negsuc 109) → got ≡ (timed_out, ready))
      × ((k : ℕ) → k ≢ 109 → poll ≡ poll_ended (negsuc k) → got ≡ (failed (negsuc k), ready))
unfolding receive_both poll_code ready xbuf_metadata
receive_impl_lem m timeout out size meta before after b quiet =
    let here = bridged m timeout out size meta b in
    (
      λ h payload v e. ground (
        arith,
        from_xbuf m timeout out size meta b before after (header_bytes h ++ payload) quiet
            (message_bytes h payload) e,
        xbuf_metadata_lem meta h payload v,
      ),
      λ bytes some_byte short e.
          ground (
            arith,
            short,
            from_xbuf m timeout out size meta b before after bytes quiet some_byte e,
          ),
      λ d e v lt u above.
          subst (TakesHighest m size out.ring_then)
            (sym (
              from_ring m timeout out size meta b before after quiet e
                (has_in_use_slot-true out.ring_then d v lt u)))
            (take_message-TakesHighest m size out.ring_then d v lt u above),
      λ e. ground (arith, here, e),
      λ k other e. ground (arith, here, e, other),
    )
