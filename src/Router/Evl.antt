-- ===== src/Router/Evl.antt =====
-- src/router/evl_router.cpp: the EVL router, which passes frames on between TCP connections and the
-- cross-buffer devices of EVL mailboxes.
-- `net` is the part of its state that the TCP router has too: the connections, the local mailboxes,
-- the links and what left them, in the order of sending. The source repeats the TCP router's code for
-- them, and the operations here are those of Router/Tcp on `net`, whose field `registry` the EVL
-- router does not use: its own is `routes`.
-- Parameters, besides the `up` of Router/Tcp: `opens` says whether the device of a mailbox can be
-- opened, `writes` whether it takes the whole of a body.
pub mod Routes
pub mod Erase
pub mod Equivalence
pub mod Run
mod Tests
use core_ra_t.Base.{
  ℕ, zero, suc, ◌+◌, Bool, true, false, not, ◌&&◌, ◌||◌, Option, none, some, List, [], ◌∷◌, ◌++◌,
  length, ltb, ◌==◌, if◌then◌else◌,
}
use core_ra_t.Tims.Protocol.{
  FrameHeader, make_frame, body_length, same_type, mbx_of_body, sizeof_mbx_init_payload, msg_ok,
  msg_error, msg_router_mbx_init_with_reply, msg_router_mbx_delete, msg_router_disable_watchdog,
  msg_router_peer_hello, msg_router_peer_register, msg_router_peer_delete,
}
use core_ra_t.Router.Tcp as Tcp
use core_ra_t.Router.Tcp.{
  Router, Link, connection, lookup_connection, with_connection, set_peer, set_closed,
}
use core_ra_t.Router.Evl.Routes
use core_ra_t.Router.Evl.Routes.{EvlRoutes, MailboxEntry, tcp, xbuf, peer}

pub record EvlRouter : Type 0 where
  pub net : Router
  pub routes : EvlRoutes
  -- what went into the devices, with the mailbox, oldest first
  pub written : List (ℕ × List ℕ)

abbrev pub with_net : EvlRouter → Router → EvlRouter
with_net e n = record e { net = n }

abbrev pub is_peer : EvlRouter → ℕ → Bool
is_peer e i = (lookup_connection e.net.connections i).is_peer

module _ (up : Link → Bool) where
  -- `Connection::forward`, and the error reply, on connection `i`.
  pub forward : EvlRouter → ℕ → FrameHeader → List ℕ → EvlRouter
  forward e i header body = with_net e (Tcp.send up e.net (connection i) header body).1

  pub on_local_registered : EvlRouter → ℕ → EvlRouter
  on_local_registered e mbx = with_net e (Tcp.on_local_registered up e.net mbx)

  pub on_local_deleted : EvlRouter → ℕ → EvlRouter
  on_local_deleted e mbx = with_net e (Tcp.on_local_deleted up e.net mbx)

  pub advertise_as_peer : EvlRouter → ℕ → EvlRouter
  advertise_as_peer e i = with_net e (Tcp.advertise_as_peer up e.net i)

  pub forward_to_upstream : EvlRouter → FrameHeader → List ℕ → Bool × EvlRouter
  forward_to_upstream e header body =
      let (ok, n) = Tcp.forward_to_upstream up e.net header body in (ok, with_net e n)

  pub on_hello : EvlRouter → ℕ → EvlRouter
  on_hello e i =
      if is_peer e i then e else advertise_as_peer (with_net e (with_connection e.net i set_peer)) i

  pub on_peer_register : EvlRouter → ℕ → ℕ → List ℕ → EvlRouter
  on_peer_register e i body_len body =
      if not (is_peer e i) || ltb body_len sizeof_mbx_init_payload
      then e
      else record e { routes = (Routes.add_peer e.routes (mbx_of_body body) i).1 }

  pub on_peer_delete : EvlRouter → ℕ → ℕ → List ℕ → EvlRouter
  on_peer_delete e i body_len body =
      if not (is_peer e i) || ltb body_len sizeof_mbx_init_payload
      then e
      else record e { routes = Routes.remove e.routes (mbx_of_body body) }

  pub on_mbx_delete : EvlRouter → ℕ → ℕ → List ℕ → EvlRouter
  on_mbx_delete e i body_len body =
      if ltb body_len sizeof_mbx_init_payload
      then e
      else on_local_deleted (record e { routes = Routes.remove e.routes (mbx_of_body body) })
          (mbx_of_body body)

  pub answer : EvlRouter → ℕ → FrameHeader → Bool → EvlRouter
  answer e i frame ok =
      forward e i (make_frame (if ok then msg_ok else msg_error) frame.src 0 0 frame.seq_nr 0) []

  -- The registration of a mailbox with the entry that its device, or the lack of one, calls for.
  pub register : EvlRouter → ℕ → ℕ → Bool → Bool × EvlRouter
  register e i mbx device =
      let (ok, routes) =
        (if device then Routes.add_xbuf e.routes mbx else Routes.add_tcp e.routes mbx i) in
      let e' = record e { routes = routes } in (ok, if ok then on_local_registered e' mbx else e')

  module _ (opens : ℕ → Bool) (writes : ℕ → List ℕ → Bool) where
    pub on_mbx_init : EvlRouter → ℕ → FrameHeader → ℕ → List ℕ → EvlRouter
    on_mbx_init e i frame body_len body =
        if ltb body_len sizeof_mbx_init_payload
        then e
        else (let (ok, e') = register e i (mbx_of_body body) (opens (mbx_of_body body)) in
            answer e' i frame ok)

    -- The body goes into the device whole, or the answer is no; what a write that fails midway has left in
    -- the device is not recorded.
    pub write_body : EvlRouter → ℕ → List ℕ → Bool × EvlRouter
    write_body e mbx body =
        if length body == 0
        then (false, e)
        else if writes mbx body
        then (true, record e { written = e.written ++ ((mbx, body) ∷ []) })
        else (false, e)

    pub on_data : EvlRouter → ℕ → FrameHeader → List ℕ → EvlRouter
    on_data e i frame body = elim (Routes.find e.routes frame.dest) [
      | none ↦
          if is_peer e i
          then e
          else (let (forwarded, e') = forward_to_upstream e frame body in
              if forwarded then e' else answer e' i frame false)
      | some (tcp d) ↦ forward e d frame body
      | some (peer d) ↦ forward e d frame body
      | some (xbuf m) ↦
          (let (ok, e') = write_body e m body in if ok then e' else answer e' i frame false)
    ]

    pub dispatch : EvlRouter → ℕ → FrameHeader → ℕ → List ℕ → EvlRouter
    dispatch e i frame body_len body =
        if same_type frame.type msg_router_peer_hello
        then on_hello e i
        else if same_type frame.type msg_router_peer_register
        then on_peer_register e i body_len body
        else if same_type frame.type msg_router_peer_delete
        then on_peer_delete e i body_len body
        else if same_type frame.type msg_router_disable_watchdog
        then e
        else if same_type frame.type msg_router_mbx_init_with_reply
        then on_mbx_init e i frame body_len body
        else if same_type frame.type msg_router_mbx_delete
        then on_mbx_delete e i body_len body
        else on_data e i frame body

    pub handle_frame : EvlRouter → ℕ → FrameHeader → Option (List ℕ) → EvlRouter
    handle_frame e i frame received =
        let n = body_length frame in
        if ltb e.net.max_msg_size n
        then with_net e (with_connection e.net i set_closed)
        else if n == 0
        then dispatch e i frame n []
        else (elim received [ none ↦ e | some body ↦ dispatch e i frame n body ])
