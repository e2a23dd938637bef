-- ===== src/Tims/Mailbox/Send.antt =====
-- What a mailbox sends, and how it registers.
use core_ra_t.Base.{
  ℕ, ◌+◌, ◌%◌, ◌^◌, ◌<◌, ◌≤◌, ◌≡◌, refl, ap, ◌∙◌, ◌⊎◌, inl, inr, Bool, true, false, Option, none,
  some, List, [], ◌∷◌, ◌++◌, arith, length, take, append_assoc, Option-cases, take-append-drop,
}
use core_ra_t.Base.Int.{pos}
use core_ra_t.Tims.Protocol.{
  FrameHeader, IsFrame, make_frame, same_type, frame_bytes, body_length, u32_bytes, msg_ok,
  body_length-make_frame,
}
use core_ra_t.Tims.Mailbox.{
  TimsMailbox, always, TimsResult, success, error_init, watchdog_frame, register_frame, send_all,
  recv_all, recv_frame, initialize, data_header, send_raw, received, metadata_of, swap_header,
  receive_raw,
}
use core_ra_t.Tims.Mailbox.Receive.{IsMessage, recv_frame-frame_bytes, receive_lem}

-- The numbers of the mailbox are in the ranges of their C++ types.
abbrev pub IsSender : TimsMailbox → ℕ → List ℕ → Type 0
IsSender m dest bytes =
    (m.config.mailbox_id < 2 ^ 32)
    × (dest < 2 ^ 32)
    × (0 < length bytes)
    × (length bytes + 16 < 2 ^ 32)

-- The mailbox is connected with the result SUCCESS, or closed with ERROR_INIT.
abbrev pub IsSettled : TimsResult × TimsMailbox → Type 0
IsSettled (result, q) =
    ((result ≡ success) × (q.is_initialized ≡ true) × (q.is_open ≡ true))
    ⊎ ((result ≡ error_init) × (q.is_initialized ≡ false) × (q.is_open ≡ false))

data_header-IsFrame :
    (m : TimsMailbox) (dest : ℕ) (bytes : List ℕ)
    → IsSender m dest bytes
    → IsFrame (data_header m dest (length bytes))
unfolding make_frame
data_header-IsFrame m dest bytes (id, d, some_bytes, short) = record {
  flags_byte = omega arith;
  type_low = omega arith;
  type_high = omega arith;
  priority_byte = omega arith;
  seq_byte = omega arith;
  dest_word = d;
  src_word = id;
  msglen_word = omega arith;
}

pub data_header-IsMessage :
    (m : TimsMailbox) (dest : ℕ) (bytes : List ℕ) (n : ℕ)
    → IsSender m dest bytes
    → length bytes ≤ n
    → IsMessage (data_header m dest (length bytes)) bytes n
unfolding make_frame
data_header-IsMessage m dest bytes n s fits = (
  data_header-IsFrame m dest bytes s,
  refl,
  s.2,
  omega (
    arith,
    small,
    body_length-make_frame (pos 0) dest m.config.mailbox_id (m.config.priority % 256)
        (m.sequence_number % 256) (length bytes) s.3,
    ap
        (λ k. body_length (
          make_frame (pos 0) dest m.config.mailbox_id (m.config.priority % 256)
            (m.sequence_number % 256) k))
        small,
  ),
  fits,
)
  where
    small : length bytes % 2 ^ 32 ≡ length bytes
    small = omega (arith, s.3)

-- The swap of a header does nothing to a little-endian message.
pub swap_header-little :
    (swap : Bool → List ℕ → List ℕ) (m : TimsMailbox) (dest n : ℕ) (bytes : List ℕ)
    → ((xs : List ℕ) → swap true xs ≡ xs)
    → swap_header swap (data_header m dest n) bytes ≡ bytes
unfolding swap_header make_frame
swap_header-little swap m dest n bytes h =
    ground (arith, h (take 32 bytes), take-append-drop 32 bytes)

module _ (swap : Bool → List ℕ → List ℕ) (little : (xs : List ℕ) → swap true xs ≡ xs) where
  -- Where the swap leaves little-endian headers alone: a message of at least one byte and at most the
  -- sender's maximum, sent by a connected mailbox on a socket that takes it, is given to the router in
  -- whole, is counted, and uses up a sequence number. A connected mailbox whose router passes on these
  -- bytes, and whose buffer holds the message, receives exactly it, with the sender's address, the
  -- destination, and the sequence number and the priority modulo 256.
  pub send-receive :
      (a b : TimsMailbox) (bytes : List ℕ) (dest n : ℕ) (rest : List ℕ)
      → a.is_initialized ≡ true
      → a.is_open ≡ true
      → IsSender a dest bytes
      → length bytes ≤ a.config.max_msg_size
      → b.is_initialized ≡ true
      → b.is_open ≡ true
      → length bytes ≤ n
      → b.incoming ≡ frame_bytes (data_header a dest (length bytes)) ++ (bytes ++ rest)
      → (send_raw true true a (some bytes) dest ≡ (
        success,
        record a {
          outgoing = a.outgoing ++ (frame_bytes (data_header a dest (length bytes)) ++ bytes);
          sequence_number = (a.sequence_number + 1) % 2 ^ 32;
          messages_sent = a.messages_sent + 1;
        },
      ))
        × (receive_raw swap always (true ∷ []) b n ≡ (
          received
              (record {
                src = a.config.mailbox_id;
                dest = dest;
                seq_nr = a.sequence_number % 256;
                priority = a.config.priority % 256;
                flags = 3;
              })
              bytes,
          record b {
            incoming = rest;
            outgoing = b.outgoing ++ [];
            messages_received = b.messages_received + 1;
          },
        ))
  unfolding send_raw send_all make_frame
  send-receive a b bytes dest n rest ai ao s small bi bo fits e = (
    ground (
      arith,
      ai,
      ao,
      s.2,
      small,
      append_assoc a.outgoing (frame_bytes (data_header a dest (length bytes))) bytes,
    ),
    receive_lem swap [] b n (data_header a dest (length bytes)) bytes rest bi bo tt
          (data_header-IsMessage a dest bytes n s fits) e
        ∙ ap
            (λ out. (
              received (metadata_of (data_header a dest (length bytes))) out,
              record b {
                incoming = rest;
                outgoing = b.outgoing ++ [];
                messages_received = b.messages_received + 1;
              },
            ))
            (swap_header-little swap a dest (length bytes) bytes little),
  )

pub recv_frame-flags :
    (m : TimsMailbox) (f : FrameHeader) (q : TimsMailbox)
    → recv_frame m ≡ some (f, q)
    → (q.is_open ≡ m.is_open) × (q.is_initialized ≡ m.is_initialized)
unfolding recv_frame recv_all
recv_frame-flags m f q e = ground (arith, e)

-- An attempt to initialize a mailbox that is not initialized. Where the socket connects and takes both
-- frames, and the router's first bytes are a header of type MSG_OK, it succeeds: the router has been
-- given the watchdog frame, the registration frame and the mailbox's id, and what the router sends next
-- is still to be received. Whatever the network does, the mailbox is connected where the result is
-- SUCCESS, and otherwise the result is ERROR_INIT, its socket is closed and it is not initialized.
pub initialize_lem :
    (m : TimsMailbox)
    → m.is_initialized ≡ false
    → ((f : FrameHeader) (rest : List ℕ)
        → IsFrame f
        → same_type f.type msg_ok ≡ true
        → initialize (some (frame_bytes f ++ rest)) true true m ≡ (
          success,
          record m {
            is_open = true;
            is_initialized = true;
            incoming = rest;
            outgoing =
                (m.outgoing ++ frame_bytes (watchdog_frame m))
                ++ (frame_bytes (register_frame m) ++ u32_bytes m.config.mailbox_id);
          },
        ))
      × ((connected : Option (List ℕ)) (watchdog_taken register_taken : Bool)
          → IsSettled (initialize connected watchdog_taken register_taken m))
unfolding initialize send_all
initialize_lem m no_init = (
  λ f rest v ok.
      ground (
        arith,
        no_init,
        ok,
        recv_frame-frame_bytes (attempt (frame_bytes f ++ rest)) f rest v refl,
      ),
  settled,
)
  where
    attempt : List ℕ → TimsMailbox
    attempt stream = record m {
      is_open = true;
      incoming = stream;
      outgoing =
          (m.outgoing ++ frame_bytes (watchdog_frame m))
          ++ (frame_bytes (register_frame m) ++ u32_bytes m.config.mailbox_id);
    }

    settled :
        (connected : Option (List ℕ)) (watchdog_taken register_taken : Bool)
        → IsSettled (initialize connected watchdog_taken register_taken m)
    settled none w g = ground (arith, no_init)
    settled (some stream) false g = ground (arith, no_init)
    settled (some stream) true false = ground (arith, no_init)
    settled (some stream) true true = elim (Option-cases (recv_frame (attempt stream))) [
      | inl e ↦ ground (arith, no_init, e)
      | inr ((f, q), e) ↦ ground (arith, no_init, e, recv_frame-flags (attempt stream) f q e)
    ]
