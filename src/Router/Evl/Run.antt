-- ===== src/Router/Evl/Run.antt =====
-- The life of the EVL router's connections and devices in src/router/evl_router.cpp: accepting and
-- connecting, the loop of `Connection::run`, the readers of the upstream links and `XbufEntry::run_reader`.
use core_ra_t.Base.{
  ℕ, ◌<◌, ◌%◌, ◌^◌, ◌⊎◌, inl, inr, ◌+◌, ◌≤◌, ◌≡◌, ◌∙◌, ap, arith, Bool, true, false, Option, none,
  some, List, [], ◌∷◌, ◌++◌, length, ltb, ◌==◌, if◌then◌else◌,
}
use core_ra_t.Base.Int.{pos}
use core_ra_t.Tims.Protocol.{
  FrameHeader, make_frame, body_length, mbx_of_body, sizeof_mbx_init_payload,
}
use core_ra_t.Message.Wire.{
  WireHeader, IsHeader, header_bytes, header_of, sizeof_wire_header, header_of-header_bytes,
}
use core_ra_t.Router.Tcp.{Link, Packet, connection, lookup_connection}
use core_ra_t.Router.Tcp.Sending.{emitting, if_taken, send-emitting}
use core_ra_t.Router.Tcp.Run as Run
use core_ra_t.Router.Tcp.Run.{Event, idle, broken, frame, close_link}
use core_ra_t.Router.Evl.{EvlRouter, with_net, forward, register, answer, on_mbx_init, handle_frame}
use core_ra_t.Router.Evl.Routes
use core_ra_t.Router.Evl.Routes.{EvlRoutes, MailboxEntry, tcp, xbuf, peer}

pub accept : EvlRouter → EvlRouter
accept e = with_net e (Run.accept e.net)

pub connect_to_upstream : EvlRouter → Option Bool → EvlRouter
connect_to_upstream e connected = with_net e (Run.connect_to_upstream e.net connected)

pub connect_to_system_routes : EvlRouter → List (ℕ × Bool) → EvlRouter
connect_to_system_routes e routes = with_net e (Run.connect_to_system_routes e.net routes)

-- The connection that an entry is delivered over: a device has none.
abbrev pub connection_of : Option MailboxEntry → Option ℕ
connection_of none = none
connection_of (some (tcp c)) = some c
connection_of (some (peer c)) = some c
connection_of (some (xbuf m)) = none

module _ (up : Link → Bool) where
  pub connect_to_peers : EvlRouter → List Bool → EvlRouter
  connect_to_peers e connected = with_net e (Run.connect_to_peers up e.net connected)

  -- A frame for a mailbox of a client or peer goes to it, any other frame is dropped.
  unfoldable pub forward_to_local : EvlRouter → FrameHeader → List ℕ → EvlRouter
  forward_to_local e header body = elim (connection_of (Routes.find e.routes header.dest)) [
    | none ↦ e
    | some c ↦ forward up e c header body
  ]

  -- A round of `run_connection_reader`: whether the loop goes on, and the router after.
  unfoldable pub reader_round : EvlRouter → Link → Event → Bool × EvlRouter
  reader_round e l idle = (true, e)
  reader_round e l broken = (false, with_net e (close_link e.net l))
  reader_round e l (frame header received) =
      let n = body_length header in
      if ltb e.net.max_msg_size n
      then (false, with_net e (close_link e.net l))
      else (let body = (if n == 0 then some [] else received) in
          elim body [
            | none ↦ (false, with_net e (close_link e.net l))
            | some bytes ↦ (true, forward_to_local e header bytes)
          ])

  -- A round of the reader of a device that gave the bytes of one message, of at most the maximal size.
  unfoldable pub xbuf_round : EvlRouter → List ℕ → EvlRouter
  xbuf_round e bytes =
      let header = header_of bytes in
      if ltb (length bytes) sizeof_wire_header
      then e
      else forward_to_local e (make_frame (pos 0) header.dest header.src 0 0 (length bytes)) bytes

  module _ (opens : ℕ → Bool) (writes : ℕ → List ℕ → Bool) (poll : Bool → Event → Bool) where
    -- A round of the loop of `Connection::run`.
    unfoldable pub run_round : EvlRouter → ℕ → Event → Bool × EvlRouter
    run_round e i event =
        if poll (lookup_connection e.net.connections i).is_open event
        then (elim event [
          | idle ↦ (true, e)
          | broken ↦ (false, e)
          | frame header received ↦ (true, handle_frame up opens writes e i header received)
        ])
        else (true, e)

    -- The rest of the loop, and its end, at a break or at the stop.
    unfoldable pub run : EvlRouter → ℕ → List Event → EvlRouter
    run e i [] = record e { routes = Routes.remove_all_for_con e.routes i }
    run e i (event ∷ events) =
        let (on, e') = run_round e i event in
        let rest = run e' i events in
        if on then rest else record e' { routes = Routes.remove_all_for_con e'.routes i }

length-message :
    (h : WireHeader) (payload : List ℕ) → length (header_bytes h ++ payload) ≡ 32 + length payload
unfolding header_bytes
length-message h payload = omega (arith)

xbuf_round-bytes :
    (up : Link → Bool) (e : EvlRouter) (bytes : List ℕ) (n : ℕ)
    → length bytes ≡ n
    → sizeof_wire_header ≤ n
    → xbuf_round up e bytes
      ≡ forward_to_local up e
          (make_frame (pos 0) (header_of bytes).dest (header_of bytes).src 0 0 n)
          bytes
unfolding xbuf_round
xbuf_round-bytes up e bytes n l s = ground (arith, l, s)

-- The frame that a message out of a device is put into: from the sender of its header to its
-- destination, with the size of the message as the size of its body.
abbrev pub bridged_packet : ℕ → WireHeader → List ℕ → Packet
bridged_packet c h payload = record {
  link = connection c;
  header = record {
    flags = 3;
    type = pos 0;
    priority = 0;
    seq_nr = 0;
    dest = h.dest;
    src = h.src;
    msglen = (16 + (32 + length payload)) % 2 ^ 32;
  };
  body = header_bytes h ++ payload;
}

xbuf_round-forward_to_local :
    (up : Link → Bool) (e : EvlRouter) (h : WireHeader) (payload : List ℕ)
    → IsHeader h
    → xbuf_round up e (header_bytes h ++ payload)
      ≡ forward_to_local up e (bridged_packet 0 h payload).header (header_bytes h ++ payload)
unfolding make_frame
xbuf_round-forward_to_local up e h payload v =
    xbuf_round-bytes up e (header_bytes h ++ payload) (32 + length payload)
      (length-message h payload) (omega (arith))
    ∙ ap
        (λ x.
          forward_to_local up e (make_frame (pos 0) x.dest x.src 0 0 (32 + length payload))
            (header_bytes h ++ payload))
        (header_of-header_bytes h payload v)

forward_to_local-Some :
    (up : Link → Bool) (e : EvlRouter) (f : FrameHeader) (body : List ℕ) (c : ℕ)
    → connection_of (Routes.find e.routes f.dest) ≡ some c
    → forward_to_local up e f body
      ≡ with_net e (
          emitting e.net
            (if_taken up e.net (record { link = connection c; header = f; body = body })))
unfolding forward_to_local forward
forward_to_local-Some up e f body c at =
    ground (arith, at, send-emitting up e.net (connection c) f body)

-- What a device gives. A message goes to the client or peer that holds the mailbox its header names,
-- in one frame from the header's sender, if that link takes it, and nothing else changes. A message
-- for a mailbox that is unknown or has a device, and bytes shorter than a header, change nothing.
pub xbuf_round_lem :
    (up : Link → Bool) (e : EvlRouter) (h : WireHeader) (payload : List ℕ)
    → IsHeader h
    → let after : EvlRouter = xbuf_round up e (header_bytes h ++ payload) in
      ((c : ℕ)
        → (Routes.find e.routes h.dest ≡ some (tcp c))
          ⊎ (Routes.find e.routes h.dest ≡ some (peer c))
        → after ≡ with_net e (emitting e.net (if_taken up e.net (bridged_packet c h payload))))
      × ((m : ℕ) → Routes.find e.routes h.dest ≡ some (xbuf m) → after ≡ e)
      × (Routes.find e.routes h.dest ≡ none → after ≡ e)
      × ((bytes : List ℕ) → length bytes < 32 → xbuf_round up e bytes ≡ e)
unfolding forward_to_local xbuf_round
xbuf_round_lem up e h payload v = (
  λ c at.
      xbuf_round-forward_to_local up e h payload v
      ∙ forward_to_local-Some up e (bridged_packet c h payload).header (header_bytes h ++ payload) c
          (elim at [ inl a ↦ ap connection_of a | inr a ↦ ap connection_of a ]),
  λ m at. xbuf_round-forward_to_local up e h payload v ∙ ground (arith, at),
  λ at. xbuf_round-forward_to_local up e h payload v ∙ ground (arith, at),
  λ bytes short. ground (arith, short),
)

-- When the loop of a connection has ended, the routes of its clients and peers are gone and a mailbox
-- that has a device keeps its route, so the next registration of that mailbox is refused.
pub run-on_mbx_init :
    (up : Link → Bool) (opens : ℕ → Bool) (writes : ℕ → List ℕ → Bool) (poll : Bool → Event → Bool)
    (e : EvlRouter) (i j m : ℕ) (f : FrameHeader) (n : ℕ) (body : List ℕ)
    → Routes.IsMap e.routes
    → Routes.find e.routes m ≡ some (xbuf m)
    → sizeof_mbx_init_payload ≤ n
    → mbx_of_body body ≡ m
    → let ended = run up opens writes poll e i [] in
      on_mbx_init up opens writes ended j f n body ≡ answer up ended j f false
unfolding run on_mbx_init register Routes.add
run-on_mbx_init up opens writes poll e i j m f n body v h s b =
    ground (arith, Routes.find-remove_all_for_con e.routes i (mbx_of_body body) v)
