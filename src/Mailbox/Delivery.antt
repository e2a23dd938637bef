-- ===== src/Mailbox/Delivery.antt =====
-- What one mailbox of include/corerat/ipc/mailbox.hpp sends and another receives.
use core_ra_t.Base.{
  ℕ, ◌≤◌, ◌≡◌, ◌≢◌, ap, ◌∙◌, arith, true, Option, none, some, List, ◌++◌, length, length-append,
  if◌then◌else◌,
}
use core_ra_t.Platform.Duration.{Duration}
use core_ra_t.Message.Wire.{
  WireHeader, IsHeader, header_of, header_bytes, header_of-header_bytes, length-header_bytes,
}
use core_ra_t.Message.Registry.{Definitions, processed, visit, get_message_id, IsDistinct}
use core_ra_t.Message.Registry.Lookup.{
  stamped, serialize-registered, Inverts, visit_lem, payload_type_for-get_message_id,
}
use core_ra_t.Mailbox.Interface.{Backend, Metadata, message}
use core_ra_t.Mailbox.{Mailbox, network_error, is_success, send, backend_send, receive_any_for}

-- Messages of a payload have one size, whatever their header.
abbrev pub IsSized : {P : Type 0} → (ℕ → WireHeader → P → List ℕ) → Type 0
IsSized {P} sertial =
    (t : ℕ) (h h' : WireHeader) (x : P) → length (sertial t h x) ≡ length (sertial t h' x)

-- A message begins with the bytes of its header.
abbrev pub IsPrefixed : {P : Type 0} → (ℕ → WireHeader → P → List ℕ) → Type 0
IsPrefixed {P} sertial =
    (t : ℕ) (h : WireHeader) (x : P) → (rest : List ℕ) × (sertial t h x ≡ header_bytes h ++ rest)

module _ {S P : Type 0} (b : Backend S) (sertial : ℕ → WireHeader → P → List ℕ) where
  sent :
      (defs : Definitions) (m : Mailbox S) (t id : ℕ) (h : WireHeader) (x : P) (dest : ℕ)
      → get_message_id (processed defs) t ≡ some id
      → m.running ≡ true
      → b.is_initialized m.backend ≡ true
      → dest ≢ 0
      → let header = stamped h id (length (sertial t (record h { msg_type = id }) x)) in
        let given = b.send_raw m.backend (sertial t header x) dest in
        send b sertial defs m t h x dest ≡ (
          (if is_success given.0 then none else some network_error),
          record m { backend = given.1 },
        )
  unfolding send backend_send
  sent defs m t id h x dest reg run init to =
      ground (arith, run, init, to, serialize-registered sertial (processed defs) t id h x reg)

  -- A mailbox that runs, over a backend that is initialized, gives its backend the message with its
  -- type's id and its own size in the header, though the first serialisation had another size there,
  -- and succeeds exactly if the backend does. The size of a message does not depend on its header.
  pub send-stamped :
      (defs : Definitions) (m : Mailbox S) (t id : ℕ) (h : WireHeader) (x : P) (dest : ℕ)
      → IsSized sertial
      → get_message_id (processed defs) t ≡ some id
      → m.running ≡ true
      → b.is_initialized m.backend ≡ true
      → dest ≢ 0
      → let header = stamped h id (length (sertial t h x)) in
        let given = b.send_raw m.backend (sertial t header x) dest in
        send b sertial defs m t h x dest ≡ (
          (if is_success given.0 then none else some network_error),
          record m { backend = given.1 },
        )
  send-stamped defs m t id h x dest sized reg run init to =
      let typed = record h { msg_type = id } in
      let size : length (sertial t typed x) ≡ length (sertial t h x) = sized t typed h x in
      let given = λ (n : ℕ). b.send_raw m.backend (sertial t (stamped h id n) x) dest in
      sent defs m t id h x dest reg run init to
      ∙ ap
          (λ n. (
            (if is_success (given n).0 then none else some network_error),
            record m { backend = (given n).1 },
          ))
          size

module _ {S P : Type 0} (b : Backend S) (sertial : ℕ → WireHeader → P → List ℕ)
    (deserialize : ℕ → List ℕ → Option (WireHeader × P)) where
  header_of-sertial :
      (t : ℕ) (h : WireHeader) (x : P)
      → IsPrefixed sertial
      → IsHeader h
      → (header_of (sertial t h x) ≡ h) × (32 ≤ length (sertial t h x))
  header_of-sertial t h x prefixed v =
      let (rest, e) = prefixed t h x in
      (
        ap header_of e ∙ header_of-header_bytes h rest v,
        omega (arith, ap length e, length-append (header_bytes h) rest, length-header_bytes h),
      )

  visit-stamped :
      (defs : Definitions) (t id : ℕ) (h : WireHeader) (x : P)
      → Inverts sertial deserialize
      → IsDistinct (processed defs)
      → get_message_id (processed defs) t ≡ some id
      → IsHeader h
      → visit deserialize (processed defs) id (sertial t h x) ≡ some (t, (h, x))
  visit-stamped defs t id h x inv v reg wf = ground (
    arith,
    visit_lem deserialize (processed defs) id (sertial t h x),
    payload_type_for-get_message_id (processed defs) t id v reg,
    inv t h x wf,
  )

  -- What such a message was sent as, `receive_any_for` gives the visitor: the payload type, the payload
  -- and the header, with the addresses from the transport, where the registry's ids are distinct, the
  -- library inverts its own serialisation, and a message begins with the bytes of its header.
  pub receive_any_for-stamped :
      (defs : Definitions) (size : ℕ) (m : Mailbox S) (wait : Duration) (meta : Metadata)
      (t id n : ℕ) (h : WireHeader) (x : P)
      → Inverts sertial deserialize
      → IsPrefixed sertial
      → IsDistinct (processed defs)
      → get_message_id (processed defs) t ≡ some id
      → IsHeader (stamped h id n)
      → m.running ≡ true
      → (b.receive_raw_bytes m.backend size wait).0 ≡ message meta (sertial t (stamped h id n) x)
      → receive_any_for b deserialize defs size m wait ≡ (
        none,
        some (t, record (stamped h id n) { src = meta.src; dest = meta.dest }, x),
        record m { backend = (b.receive_raw_bytes m.backend size wait).1 },
      )
  unfolding receive_any_for
  receive_any_for-stamped defs size m wait meta t id n h x inv prefixed v reg wf run got =
      let header = stamped h id n in
      let bytes = sertial t header x in
      let (read, long) = header_of-sertial t header x prefixed wf in
      let seen : visit deserialize (processed defs) (header_of bytes).msg_type bytes
          ≡ some (t, (header, x)) =
        ap (λ k. visit deserialize (processed defs) k.msg_type bytes) read
        ∙ visit-stamped defs t id header x inv v reg wf in
      ground (arith, run, got, long, seen)
