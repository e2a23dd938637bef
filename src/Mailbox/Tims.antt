-- ===== src/Mailbox/Tims.antt =====
-- The mailbox of include/corerat/ipc/mailbox.hpp over the TCP backend of src/tims_backend.cpp.
-- The network's answers are functions of the backend's state: what the router sends on a new
-- connection, what the socket takes, and how often it is readable before it is silent.
use core_ra_t.Base.{
  ℕ, ◌+◌, ◌<◌, ◌≤◌, ◌≡◌, ◌≢◌, refl, arith, Bool, true, false, Option, some, List, [], ◌∷◌, ◌++◌,
  length, length-drop, Bool-cases, Option-cases, inl, inr, ◌⊎◌,
}
use core_ra_t.Base.Int.{negsuc}
use core_ra_t.Platform.Duration.{Duration, is_positive}
use core_ra_t.Message.Wire.{WireHeader}
use core_ra_t.Message.Registry.{Definitions}
use core_ra_t.Tims.Mailbox.{
  TimsMailbox, TimsResult, TimsMetadata, Received, success, error_init, failed, timed_out,
  too_large, received, waiting, send_all, recv_all, recv_frame, receive_loop, receive_raw, send_raw,
}
use core_ra_t.Tims.Mailbox as Tims
use core_ra_t.Tims.Mailbox.Send.{recv_frame-flags, initialize_lem}
use core_ra_t.Tims.Protocol.{FrameHeader, make_frame, frame_bytes, body_length, msg_ok}
use core_ra_t.Mailbox.Interface.{Backend, Outcome, code, message, IsLifecycle, IsDraining}
use core_ra_t.Mailbox.{Mailbox, timeout, network_error, receive_any_for}

pub record Network : Type 0 where
  pub connected : TimsMailbox → Option (List ℕ)
  -- the first send of a call: the watchdog frame of `initialize`, the header of `send_raw`
  pub takes : TimsMailbox → Bool
  -- the second: the registration of `initialize`, the body of `send_raw`
  pub takes_next : TimsMailbox → Bool
  -- the reply to a status request, in the state after the request was read
  pub takes_status : TimsMailbox → Bool
  pub polls : TimsMailbox → List Bool

-- -1, -ETIMEDOUT and -EMSGSIZE. With a last poll that finds the socket silent no call is left waiting.
abbrev pub outcome_of : Received → Outcome
outcome_of failed = code (negsuc 0)
outcome_of timed_out = code (negsuc 109)
outcome_of too_large = code (negsuc 89)
outcome_of (received meta bytes) = message (record { src = meta.src; dest = meta.dest }) bytes
outcome_of waiting = code (negsuc 109)

module _ (swap : Bool → List ℕ → List ℕ) (net : Network) where
  abbrev pub receive_tims : TimsMailbox → ℕ → Received × TimsMailbox
  receive_tims m size = receive_raw swap net.takes_status (net.polls m ++ (false ∷ [])) m size

  unfoldable pub tims_backend : Backend TimsMailbox
  tims_backend = record {
    is_initialized = λ m. m.is_initialized;
    initialize = λ m. Tims.initialize (net.connected m) (net.takes m) (net.takes_next m) m;
    shutdown = Tims.shutdown;
    send_raw = λ m bytes dest. send_raw (net.takes m) (net.takes_next m) m (some bytes) dest;
    receive_raw_bytes =
        λ m size wait. (outcome_of (receive_tims m size).0, (receive_tims m size).1);
  }

send_all-kept :
    (taken : Bool) (m : TimsMailbox) (bytes : List ℕ)
    → (send_all taken m bytes).is_initialized ≡ m.is_initialized
unfolding send_all
send_all-kept taken m bytes = ground arith

recv_all-kept :
    (m : TimsMailbox) (n : ℕ) (bytes : List ℕ) (q : TimsMailbox)
    → recv_all m n ≡ some (bytes, q)
    → q.is_initialized ≡ m.is_initialized
unfolding recv_all
recv_all-kept m n bytes q e = ground (arith, e)

module _ (swap : Bool → List ℕ → List ℕ) where
  receive_loop-settles :
      (taken : TimsMailbox → Bool) (polls : List Bool) (m : TimsMailbox) (size : ℕ)
      → (receive_loop swap taken (polls ++ (false ∷ [])) m size).0 ≢ waiting
  unfolding receive_loop
  receive_loop-settles taken [] m size = ground arith
  receive_loop-settles taken (ready ∷ polls) m size = elim (Option-cases (recv_frame m)) [
    | inl n ↦ ground (arith, n)
    | inr ((f, q), e) ↦
        let reply = make_frame msg_ok f.src m.config.mailbox_id 0 0 0 in
        elim (Option-cases (recv_all q (body_length f))) [
          | inl n ↦ ground (
            arith,
            e,
            n,
            receive_loop-settles taken polls q size,
            receive_loop-settles taken polls (send_all (taken q) q (frame_bytes reply)) size,
          )
          | inr ((body, q'), n) ↦ ground (
            arith,
            e,
            n,
            receive_loop-settles taken polls q size,
            receive_loop-settles taken polls (send_all (taken q) q (frame_bytes reply)) size,
          )
        ]
  ]

  receive_loop-kept :
      (taken : TimsMailbox → Bool) (polls : List Bool) (m : TimsMailbox) (size : ℕ)
      → (receive_loop swap taken polls m size).1.is_initialized ≡ m.is_initialized
  unfolding receive_loop
  receive_loop-kept taken [] m size = refl
  receive_loop-kept taken (ready ∷ polls) m size = elim (Option-cases (recv_frame m)) [
    | inl n ↦ ground (arith, n)
    | inr ((f, q), e) ↦
        let reply = make_frame msg_ok f.src m.config.mailbox_id 0 0 0 in
        let q1 = send_all (taken q) q (frame_bytes reply) in
        let after = receive_loop-kept taken polls q size in
        let after1 = receive_loop-kept taken polls q1 size in
        let kept = recv_frame-flags m f q e in
        elim (Option-cases (recv_all q (body_length f))) [
          | inl n ↦
              ground
                (arith, e, n, after, after1, kept, send_all-kept (taken q) q (frame_bytes reply))
          | inr ((body, q'), n) ↦ ground (
            arith,
            e,
            n,
            after,
            after1,
            kept,
            send_all-kept (taken q) q (frame_bytes reply),
            recv_all-kept q (body_length f) body q' n,
          )
        ]
  ]

  receive_raw-kept :
      (taken : TimsMailbox → Bool) (polls : List Bool) (m : TimsMailbox) (size : ℕ)
      → (receive_raw swap taken polls m size).1.is_initialized ≡ m.is_initialized
  unfolding receive_raw
  receive_raw-kept taken polls m size = ground (arith, receive_loop-kept taken polls m size)

  -- With a socket that is silent in the end, receiving ends.
  pub receive_raw-settles :
      (taken : TimsMailbox → Bool) (polls : List Bool) (m : TimsMailbox) (size : ℕ)
      → (receive_raw swap taken (polls ++ (false ∷ [])) m size).0 ≢ waiting
  unfolding receive_raw
  receive_raw-settles taken polls m size = ground (arith, receive_loop-settles taken polls m size)

recv_all-length :
    (m : TimsMailbox) (n : ℕ) (bytes : List ℕ) (q : TimsMailbox)
    → recv_all m n ≡ some (bytes, q)
    → length q.incoming + n ≡ length m.incoming
unfolding recv_all
recv_all-length m n bytes q e = ground (arith, e, length-drop n m.incoming)

recv_frame-length :
    (m : TimsMailbox) (f : FrameHeader) (q : TimsMailbox)
    → recv_frame m ≡ some (f, q)
    → length q.incoming + 16 ≡ length m.incoming
unfolding recv_frame
recv_frame-length m f q e = elim (Option-cases (recv_all m 16)) [
  | inl n ↦ ground (arith, e, n)
  | inr ((bytes, q'), n) ↦ ground (arith, e, n, recv_all-length m 16 bytes q' n)
]

send_all-incoming :
    (taken : Bool) (m : TimsMailbox) (bytes : List ℕ)
    → (send_all taken m bytes).incoming ≡ m.incoming
unfolding send_all
send_all-incoming taken m bytes = ground arith

is_received : Received → Bool
is_received (received meta bytes) = true
is_received _ = false

-- What a receive takes from the stream: at least a header where it returns a message.
abbrev Shrinks : TimsMailbox → Received × TimsMailbox → Type 0
Shrinks m after =
    (length after.1.incoming ≤ length m.incoming)
    × (is_received after.0 ≡ true → length after.1.incoming < length m.incoming)

receive_loop-Shrinks :
    (swap : Bool → List ℕ → List ℕ) (taken : TimsMailbox → Bool) (polls : List Bool)
    (m : TimsMailbox) (size : ℕ)
    → Shrinks m (receive_loop swap taken polls m size)
unfolding receive_loop is_received
receive_loop-Shrinks swap taken [] m size = ground arith
receive_loop-Shrinks swap taken (ready ∷ polls) m size = elim (Option-cases (recv_frame m)) [
  | inl n ↦ ground (arith, n)
  | inr ((f, q), e) ↦
      let reply = make_frame msg_ok f.src m.config.mailbox_id 0 0 0 in
      let q1 = send_all (taken q) q (frame_bytes reply) in
      let after = receive_loop-Shrinks swap taken polls q size in
      let after1 = receive_loop-Shrinks swap taken polls q1 size in
      let less = recv_frame-length m f q e in
      elim (Option-cases (recv_all q (body_length f))) [
        | inl n ↦
            ground
              (arith, e, n, after, after1, less, send_all-incoming (taken q) q (frame_bytes reply))
        | inr ((body, q'), n) ↦ ground (
          arith,
          e,
          n,
          after,
          after1,
          less,
          send_all-incoming (taken q) q (frame_bytes reply),
          recv_all-length q (body_length f) body q' n,
        )
      ]
]

send_raw-kept :
    (header_taken body_taken : Bool) (m : TimsMailbox) (bytes : List ℕ) (dest : ℕ)
    → (send_raw header_taken body_taken m (some bytes) dest).1.is_initialized ≡ m.is_initialized
unfolding send_raw send_all
send_raw-kept h b m bytes dest = ground arith

initialize-cases :
    (connected : Option (List ℕ)) (w g : Bool) (m : TimsMailbox)
    → let after = Tims.initialize connected w g m in
      ((after.0 ≡ success) × (after.1.is_initialized ≡ true))
      ⊎ ((after.0 ≡ error_init) × (after.1.is_initialized ≡ false) × (m.is_initialized ≡ false))
unfolding Tims.initialize
initialize-cases connected w g m = elim (Bool-cases m.is_initialized) [
  | inl i ↦ inl (ground (arith, i), ground (arith, i))
  | inr n ↦ elim ((initialize_lem m n).1 connected w g) [
    | inl (a, i, o) ↦ inl (a, i)
    | inr (a, i, o) ↦ inr (a, i, n)
  ]
]

module _ (swap : Bool → List ℕ → List ℕ) (net : Network) where
  -- The TCP backend is initialized exactly from an initialization that succeeds until a shutdown,
  -- whether or not the router is reached, whichever of the two sends of an initialization, of the
  -- header and the body of a message, and of the replies to status requests the socket takes, and
  -- whatever it gives to read.
  pub tims_backend-IsLifecycle : IsLifecycle (tims_backend swap net)
  unfolding tims_backend Tims.shutdown
  tims_backend-IsLifecycle = record {
    initialize_success = λ s h.
        ground (arith, h, initialize-cases (net.connected s) (net.takes s) (net.takes_next s) s);
    initialize_kept = λ s h.
        ground (arith, h, initialize-cases (net.connected s) (net.takes s) (net.takes_next s) s);
    initialize_failure = λ s n h.
        ground (arith, n, h, initialize-cases (net.connected s) (net.takes s) (net.takes_next s) s);
    shutdown_closed = λ s. ground arith;
    send_kept = λ s bytes dest. send_raw-kept (net.takes s) (net.takes_next s) s bytes dest;
    receive_kept =
        λ s size wait. receive_raw-kept swap net.takes_status (net.polls s ++ (false ∷ [])) s size;
  }

  -- The bytes in the stream bound the messages that are pending.
  pub tims_backend-IsDraining : IsDraining (tims_backend swap net) (λ m. length m.incoming)
  unfolding tims_backend receive_raw is_received
  tims_backend-IsDraining = record {
    message_taken = λ s size wait meta bytes e.
        ground (
          arith,
          e,
          receive_loop-Shrinks swap net.takes_status (net.polls s ++ (false ∷ [])) s size,
        );
  }

  -- A mailbox that waits for a positive time on a connection that stays silent reports NetworkError,
  -- and one whose connection ends before a header has come reports Timeout.
  pub receive_any_for-tims :
      {P : Type 0}
      → (deserialize : ℕ → List ℕ → Option (WireHeader × P)) (defs : Definitions) (size : ℕ)
        (m : Mailbox TimsMailbox) (wait : Duration)
      → m.running ≡ true
      → m.backend.is_initialized ≡ true
      → m.backend.is_open ≡ true
      → is_positive wait ≡ true
      → (net.polls m.backend ≡ []
          → (receive_any_for (tims_backend swap net) deserialize defs size m wait).0
            ≡ some network_error)
        × ((rest : List Bool)
            → net.polls m.backend ≡ true ∷ rest
            → length m.backend.incoming < 16
            → (receive_any_for (tims_backend swap net) deserialize defs size m wait).0
              ≡ some timeout)
  unfolding receive_any_for tims_backend receive_raw receive_loop recv_frame recv_all
  receive_any_for-tims deserialize defs size m wait run init opened positive = (
    λ silent. ground (arith, run, init, opened, positive, silent),
    λ rest ready short. ground (arith, run, init, opened, positive, ready, short),
  )
