-- ===== src/Mailbox/EndToEnd.antt =====
-- A message from one mailbox of include/corerat/ipc/mailbox.hpp to another, each over the TCP backend of
-- src/tims_backend.cpp, through the router of src/router/tcp_router.cpp.
mod Tests
use core_ra_t.Base.{
  ℕ, ◌+◌, ◌%◌, ◌^◌, ◌<◌, ◌≤◌, ◌≡◌, ◌≢◌, refl, sym, ap, ◌∙◌, arith, Bool, true, false, Option, none,
  some, List, [], ◌∷◌, ◌++◌, length, append_assoc,
}
use core_ra_t.Platform.Duration.{Duration}
use core_ra_t.Message.Wire.{WireHeader, IsHeader}
use core_ra_t.Message.Registry.{Definitions, processed, get_message_id, IsDistinct}
use core_ra_t.Message.Registry.Lookup.{stamped, Inverts}
use core_ra_t.Tims.Protocol.{
  FrameHeader, make_frame, frame_bytes, u32_bytes, sizeof_mbx_init_payload,
}
use core_ra_t.Tims.Mailbox.{
  TimsMailbox, success, register_frame, data_header, send_all, send_raw, receive_raw, Received,
  received, metadata_of, swap_header,
}
use core_ra_t.Tims.Mailbox.Receive.{receive_message}
use core_ra_t.Tims.Mailbox.Send.{IsSender, data_header-IsMessage, swap_header-little}
use core_ra_t.Router.Registry
use core_ra_t.Router.Tcp.{Router, Link, Packet, connection, handle_frame}
use core_ra_t.Router.Tcp.Sending.{emitting}
use core_ra_t.Router.Tcp.Routing.{takes}
use core_ra_t.Router.Tcp.Client.{register-deliver}
use core_ra_t.Mailbox.Interface.{Metadata, message}
use core_ra_t.Mailbox.{Mailbox, send, receive_any_for}
use core_ra_t.Mailbox.Tims.{Network, tims_backend, outcome_of}
use core_ra_t.Mailbox.Delivery.{IsSized, IsPrefixed, send-stamped, receive_any_for-stamped}

-- A mailbox that runs over a backend with a connection.
abbrev pub IsConnected : Mailbox TimsMailbox → Type 0
IsConnected m = (m.running ≡ true) × (m.backend.is_initialized ≡ true) × (m.backend.is_open ≡ true)

-- The backend once it has sent a frame.
abbrev pub after_send : TimsMailbox → FrameHeader → List ℕ → TimsMailbox
after_send a header bytes = record a {
  outgoing = a.outgoing ++ (frame_bytes header ++ bytes);
  sequence_number = (a.sequence_number + 1) % 2 ^ 32;
  messages_sent = a.messages_sent + 1;
}

-- The backend once it has received a message, with `rest` left in the stream.
abbrev pub after_receive : TimsMailbox → List ℕ → TimsMailbox
after_receive c rest = record c { incoming = rest; messages_received = c.messages_received + 1 }

send_taken :
    (a : TimsMailbox) (bytes : List ℕ) (dest : ℕ)
    → a.is_initialized ≡ true
    → a.is_open ≡ true
    → 0 < length bytes
    → length bytes ≤ a.config.max_msg_size
    → send_raw true true a (some bytes) dest
      ≡ (success, after_send a (data_header a dest (length bytes)) bytes)
unfolding send_raw send_all
send_taken a bytes dest ai ao some_bytes small = ground (
  arith,
  ai,
  ao,
  some_bytes,
  small,
  append_assoc a.outgoing (frame_bytes (data_header a dest (length bytes))) bytes,
)

module _ (swap : Bool → List ℕ → List ℕ) (little : (xs : List ℕ) → swap true xs ≡ xs) where
  receive_given :
      (taken : TimsMailbox → Bool) (a c : TimsMailbox) (polls : List Bool) (bytes rest : List ℕ)
      (dest n : ℕ)
      → IsSender a dest bytes
      → c.is_initialized ≡ true
      → c.is_open ≡ true
      → length bytes ≤ n
      → c.incoming ≡ frame_bytes (data_header a dest (length bytes)) ++ (bytes ++ rest)
      → receive_raw swap taken (true ∷ polls) c n
        ≡ (received (metadata_of (data_header a dest (length bytes))) bytes, after_receive c rest)
  unfolding receive_raw
  receive_given taken a c polls bytes rest dest n s ci co fits e =
      let f = data_header a dest (length bytes) in
      ground (
        arith,
        ci,
        co,
        receive_message swap taken polls c n f bytes rest
            (data_header-IsMessage a dest bytes n s fits) e,
        swap_header-little swap a dest (length bytes) bytes little,
      )

  module _ {P : Type 0} (sertial : ℕ → WireHeader → P → List ℕ)
      (deserialize : ℕ → List ℕ → Option (WireHeader × P)) where
    -- The bytes of a message on the wire: its header has the id of its type and its own size.
    abbrev wire : ℕ → ℕ → WireHeader → P → List ℕ
    wire t id h x = sertial t (stamped h id (length (sertial t h x))) x

    send_leg :
        (net : Network) (m : Mailbox TimsMailbox) (defs : Definitions) (t id dest : ℕ)
        (h : WireHeader) (x : P)
        → IsSized sertial
        → get_message_id (processed defs) t ≡ some id
        → IsConnected m
        → net.takes m.backend ≡ true
        → net.takes_next m.backend ≡ true
        → dest ≢ 0
        → 0 < length (wire t id h x)
        → length (wire t id h x) ≤ m.backend.config.max_msg_size
        → send (tims_backend swap net) sertial defs m t h x dest ≡ (
          none,
          record m {
            backend =
                after_send m.backend
                  (data_header m.backend dest (length (wire t id h x)))
                  (wire t id h x);
          },
        )
    unfolding tims_backend
    send_leg net m defs t id dest h x sized reg (mr, mi, mo) mt mb to nonempty small =
        let given = send_taken m.backend (wire t id h x) dest mi mo nonempty small in
        cc (
          send-stamped (tims_backend swap net) sertial defs m t id h x dest sized reg mr mi to,
          mt,
          mb,
          given,
        )

    receive_leg :
        (net : Network) (a : TimsMailbox) (w : Mailbox TimsMailbox) (defs : Definitions)
        (t id size dest : ℕ) (h : WireHeader) (x : P) (wait : Duration) (polls : List Bool)
        (rest : List ℕ)
        → Inverts sertial deserialize
        → IsPrefixed sertial
        → IsDistinct (processed defs)
        → get_message_id (processed defs) t ≡ some id
        → IsHeader (stamped h id (length (sertial t h x)))
        → IsConnected w
        → net.polls w.backend ≡ true ∷ polls
        → IsSender a dest (wire t id h x)
        → length (wire t id h x) ≤ size
        → w.backend.incoming
          ≡ frame_bytes (data_header a dest (length (wire t id h x))) ++ (wire t id h x ++ rest)
        → receive_any_for (tims_backend swap net) deserialize defs size w wait ≡ (
          none,
          some (
            t,
            record (stamped h id (length (sertial t h x))) {
              src = a.config.mailbox_id;
              dest = dest;
            },
            x,
          ),
          record w { backend = after_receive w.backend rest },
        )
    unfolding tims_backend make_frame
    receive_leg net a w defs t id size dest h x wait polls rest inv prefixed v reg wf (wr, wi, wo)
          ready sender fits stream =
        let b = tims_backend swap net in
        let got =
          receive_given net.takes_status a w.backend (polls ++ (false ∷ [])) (wire t id h x) rest
            dest size sender wi wo fits stream in
        let meta : Metadata = record { src = a.config.mailbox_id; dest = dest } in
        let given : b.receive_raw_bytes w.backend size wait
            ≡ (message meta (wire t id h x), after_receive w.backend rest) =
          ap (λ (k : Received × TimsMailbox). (outcome_of k.0, k.1))
            (ap (λ ps. receive_raw swap net.takes_status (ps ++ (false ∷ [])) w.backend size) ready
              ∙ got) in
        cc (
          receive_any_for-stamped b sertial deserialize defs size w wait meta t id
              (length (sertial t h x)) h x inv prefixed v reg wf wr (ap (λ p. p.0) given),
          given,
        )

    -- A mailbox `m` sends a registered payload to the id of a mailbox `w`, which registers with the
    -- router on connection `i`, where its id was unknown, on a link that takes what is sent. Where the
    -- sender's socket takes the header and the body, the sockets pass on what is sent, and the message fits its sender, the router and the
    -- receiver's buffer: the send succeeds and hands the frame to the router; the router sends this one
    -- frame, unchanged, on connection `i`; and the receiver, once this frame stands in its stream,
    -- gives the visitor the payload type, the payload, and the header with its sender's and its own
    -- address. The ids are distinct, the library inverts its serialisation, its messages begin with
    -- their header and have one size for each payload, and the swap leaves little-endian ones alone.
    pub send-deliver-receive :
        (net : Network) (up : Link → Bool) (r : Router) (i j : ℕ) (m w : Mailbox TimsMailbox)
        (defs : Definitions) (t id size : ℕ) (h : WireHeader) (x : P) (wait : Duration)
        (polls : List Bool) (rest : List ℕ)
        → Inverts sertial deserialize
        → IsSized sertial
        → IsPrefixed sertial
        → IsDistinct (processed defs)
        → get_message_id (processed defs) t ≡ some id
        → IsHeader (stamped h id (length (sertial t h x)))
        → IsConnected m
        → IsConnected w
        → net.takes m.backend ≡ true
        → net.takes_next m.backend ≡ true
        → net.polls w.backend ≡ true ∷ polls
        → takes up r (connection i) ≡ true
        → sizeof_mbx_init_payload ≤ r.max_msg_size
        → Registry.find r.registry w.backend.config.mailbox_id ≡ none
        → w.backend.config.mailbox_id ≢ 0
        → IsSender m.backend w.backend.config.mailbox_id (wire t id h x)
        → length (wire t id h x) ≤ m.backend.config.max_msg_size
        → length (wire t id h x) ≤ r.max_msg_size
        → length (wire t id h x) ≤ size
        → w.backend.incoming
          ≡ frame_bytes (data_header m.backend w.backend.config.mailbox_id (length (wire t id h x)))
            ++ (wire t id h x ++ rest)
        → let dest = w.backend.config.mailbox_id in
          let bytes = wire t id h x in
          let header = data_header m.backend dest (length bytes) in
          (send (tims_backend swap net) sertial defs m t h x dest
            ≡ (none, record m { backend = after_send m.backend header bytes }))
          × ((q : Router) × (q
                ≡ handle_frame up r i (register_frame w.backend) (some (u32_bytes dest)))
              × (handle_frame up q j header (some bytes)
                  ≡ emitting q
                      (record { link = connection i; header = header; body = bytes } ∷ [])))
          × (receive_any_for (tims_backend swap net) deserialize defs size w wait ≡ (
            none,
            some (
              t,
              record (stamped h id (length (sertial t h x))) {
                src = m.backend.config.mailbox_id;
                dest = dest;
              },
              x,
            ),
            record w { backend = after_receive w.backend rest },
          ))
    send-deliver-receive net up r i j m w defs t id size h x wait polls rest inv sized prefixed v
          reg wf mc wc mt mb ready link room free to sender small fits_router fits stream =
        (
          send_leg net m defs t id w.backend.config.mailbox_id h x sized reg mc mt mb to sender.2
              small,
          register-deliver up r i j w.backend m.backend (wire t id h x) sender.1 room free link
              sender fits_router,
          receive_leg net m.backend w defs t id size w.backend.config.mailbox_id h x wait polls rest
              inv prefixed v reg wf wc ready sender fits stream,
        )
