-- ===== src/Router/Tcp.antt =====
-- src/router/tcp_router.cpp: the TCP router, its connections and its handling of frames.
-- A connection is known by its index. What leaves the router is the list `sent`, oldest first, of the
-- frames that a link took. Whether a link that is open takes what is sent during one handler is the
-- parameter `up`: the network decides it. The locks serialise the operations on each table, and one
-- handler is one step here. Sockets, threads and printing are not modelled.
pub mod Run
pub mod Sending
pub mod Routing
pub mod Registration
pub mod Invariant
pub mod Client
mod Tests
use core_ra_t.Base.{
  ℕ, zero, suc, ◌+◌, ◌/◌, ◌%◌, ◌^◌, Bool, true, false, not, ◌&&◌, ◌||◌, Option, none, some, List,
  [], ◌∷◌, ◌++◌, ltb, ◌==◌, if◌then◌else◌,
}
use core_ra_t.Base.Int.{ℤ}
use core_ra_t.Tims.Protocol.{
  FrameHeader, make_frame, body_length, same_type, u32_bytes, mbx_of_body, sizeof_mbx_init_payload,
  msg_ok, msg_error, msg_router_mbx_init_with_reply, msg_router_mbx_delete,
  msg_router_disable_watchdog, msg_router_peer_hello, msg_router_peer_register,
  msg_router_peer_delete,
}
use core_ra_t.Router.Registry
use core_ra_t.Router.Registry.{Routes}

pub data Link : Type 0 where
  connection : ℕ → Link
  upstream : Link
  system_route : ℕ → Link

-- One frame on its way out.
pub record Packet : Type 0 where
  pub link : Link
  pub header : FrameHeader
  pub body : List ℕ

pub record Connection : Type 0 where
  pub index : ℕ
  pub is_peer : Bool
  pub is_open : Bool
  pub watchdog_enabled : Bool

pub record SystemConnection : Type 0 where
  pub system_id : ℕ
  pub is_open : Bool

pub record Router : Type 0 where
  pub registry : Routes
  pub connections : List Connection
  pub local_mailboxes : List ℕ
  pub upstream_open : Bool
  pub system_connections : List SystemConnection
  pub max_msg_size : ℕ
  pub next_index : ℕ
  pub sent : List Packet

abbrev pub closed_connection : ℕ → Connection
closed_connection i = record {
  index = i;
  is_peer = false;
  is_open = false;
  watchdog_enabled = true;
}

unfoldable pub lookup_connection : List Connection → ℕ → Connection
lookup_connection [] i = closed_connection i
lookup_connection (c ∷ cs) i = if c.index == i then c else lookup_connection cs i

pub update_connection : List Connection → ℕ → (Connection → Connection) → List Connection
update_connection [] i f = []
update_connection (c ∷ cs) i f =
    let rest = update_connection cs i f in if c.index == i then f c ∷ cs else c ∷ rest

abbrev pub set_peer : Connection → Connection
set_peer c = record c { is_peer = true }

abbrev pub set_closed : Connection → Connection
set_closed c = record c { is_open = false }

abbrev pub set_no_watchdog : Connection → Connection
set_no_watchdog c = record c { watchdog_enabled = false }

unfoldable pub with_connection : Router → ℕ → (Connection → Connection) → Router
with_connection r i f = record r { connections = update_connection r.connections i f }

pub system_open : List SystemConnection → ℕ → Bool
system_open [] k = false
system_open (s ∷ ss) zero = s.is_open
system_open (s ∷ ss) (suc k) = system_open ss k

unfoldable pub link_open : Router → Link → Bool
link_open r (connection i) = (lookup_connection r.connections i).is_open
link_open r upstream = r.upstream_open
link_open r (system_route k) = system_open r.system_connections k

-- The position of the first system route for a system id.
pub system_index : List SystemConnection → ℕ → ℕ → Option ℕ
system_index [] sys k = none
system_index (s ∷ ss) sys k = if s.system_id == sys then some k else system_index ss sys (suc k)

-- `on_local_registered`'s insertion into the set, and `on_local_deleted`'s erasure from it.
pub contains : List ℕ → ℕ → Bool
contains [] m = false
contains (x ∷ xs) m = if x == m then true else contains xs m

pub insert_local : List ℕ → ℕ → List ℕ
insert_local xs m = if contains xs m then xs else m ∷ xs

pub erase_local : List ℕ → ℕ → List ℕ
erase_local [] m = []
erase_local (x ∷ xs) m = let rest = erase_local xs m in if x == m then rest else x ∷ rest

-- `(dest >> 24) & 0xFF`.
pub system_id_of : ℕ → ℕ
system_id_of dest = dest / 2 ^ 24 % 256

module _ (up : Link → Bool) where
  -- `send_all` of a header and a body: whether the link took them, and the router after.
  unfoldable pub send : Router → Link → FrameHeader → List ℕ → Bool × Router
  send r l header body =
      if link_open r l && up l
      then (
        true,
        record r { sent = r.sent ++ (record { link = l; header = header; body = body } ∷ []) },
      )
      else (false, r)

  pub send_peer_register : Router → ℕ → ℕ → Router
  send_peer_register r i mbx =
      (send r (connection i) (make_frame msg_router_peer_register 0 0 0 0 sizeof_mbx_init_payload)
        (u32_bytes mbx)).1

  pub send_peer_delete : Router → ℕ → ℕ → Router
  send_peer_delete r i mbx =
      (send r (connection i) (make_frame msg_router_peer_delete 0 0 0 0 sizeof_mbx_init_payload)
        (u32_bytes mbx)).1

  -- `broadcast_to_peers`: the peers among the connections, each given the frame.
  pub broadcast : List Connection → (Router → ℕ → Router) → Router → Router
  broadcast [] fn r = r
  broadcast (c ∷ cs) fn r = broadcast cs fn (if c.is_peer then fn r c.index else r)

  pub on_local_registered : Router → ℕ → Router
  on_local_registered r mbx =
      let r' = record r { local_mailboxes = insert_local r.local_mailboxes mbx } in
      broadcast r'.connections (λ q i. send_peer_register q i mbx) r'

  pub on_local_deleted : Router → ℕ → Router
  on_local_deleted r mbx =
      let r' = record r { local_mailboxes = erase_local r.local_mailboxes mbx } in
      broadcast r'.connections (λ q i. send_peer_delete q i mbx) r'

  pub register_all : List ℕ → Router → ℕ → Router
  register_all [] r i = r
  register_all (m ∷ ms) r i = register_all ms (send_peer_register r i m) i

  pub advertise_as_peer : Router → ℕ → Router
  advertise_as_peer r i =
      let r' = (send r (connection i) (make_frame msg_router_peer_hello 0 0 0 0 0) []).1 in
      register_all r'.local_mailboxes r' i

  -- Whether the frame went to the route of its system id, or else to the default upstream.
  unfoldable pub forward_to_upstream : Router → FrameHeader → List ℕ → Bool × Router
  forward_to_upstream r header body =
      elim (system_index r.system_connections (system_id_of header.dest) 0) [
        | some k ↦ send r (system_route k) header body
        | none ↦ send r upstream header body
      ]

  -- The cases of `handle_frame`, for a frame on connection `i` with its body received.
  unfoldable pub on_hello : Router → ℕ → Router
  on_hello r i =
      if (lookup_connection r.connections i).is_peer
      then r
      else advertise_as_peer (with_connection r i set_peer) i

  unfoldable pub on_peer_register : Router → ℕ → ℕ → List ℕ → Router
  on_peer_register r i body_len body =
      if not (lookup_connection r.connections i).is_peer || ltb body_len sizeof_mbx_init_payload
      then r
      else record r { registry = (Registry.add r.registry (mbx_of_body body) i).1 }

  unfoldable pub on_peer_delete : Router → ℕ → ℕ → List ℕ → Router
  on_peer_delete r i body_len body =
      if not (lookup_connection r.connections i).is_peer || ltb body_len sizeof_mbx_init_payload
      then r
      else record r { registry = Registry.remove r.registry (mbx_of_body body) }

  unfoldable pub on_mbx_init : Router → ℕ → FrameHeader → ℕ → List ℕ → Router
  on_mbx_init r i frame body_len body =
      if ltb body_len sizeof_mbx_init_payload
      then r
      else (let (ok, routes) = Registry.add r.registry (mbx_of_body body) i in
          let r' = record r { registry = routes } in
          let reply = make_frame (if ok then msg_ok else msg_error) frame.src 0 0 frame.seq_nr 0 in
          let r'' = (send r' (connection i) reply []).1 in
          if ok then on_local_registered r'' (mbx_of_body body) else r'')

  unfoldable pub on_mbx_delete : Router → ℕ → ℕ → List ℕ → Router
  on_mbx_delete r i body_len body =
      if ltb body_len sizeof_mbx_init_payload
      then r
      else on_local_deleted (record r { registry = Registry.remove r.registry (mbx_of_body body) })
          (mbx_of_body body)

  -- Neither the registry nor the upstream knows the destination.
  unfoldable pub answer_error : Router → ℕ → FrameHeader → Router
  answer_error r i frame =
      (send r (connection i) (make_frame msg_error frame.src 0 0 frame.seq_nr 0) []).1

  unfoldable pub on_data : Router → ℕ → FrameHeader → List ℕ → Router
  on_data r i frame body = elim (Registry.find r.registry frame.dest) [
    | some d ↦ (send r (connection d) frame body).1
    | none ↦
        if (lookup_connection r.connections i).is_peer
        then r
        else (let (forwarded, r') = forward_to_upstream r frame body in
            if forwarded then r' else answer_error r' i frame)
  ]

  unfoldable pub dispatch : Router → ℕ → FrameHeader → ℕ → List ℕ → Router
  dispatch r i frame body_len body =
      if same_type frame.type msg_router_peer_hello
      then on_hello r i
      else if same_type frame.type msg_router_peer_register
      then on_peer_register r i body_len body
      else if same_type frame.type msg_router_peer_delete
      then on_peer_delete r i body_len body
      else if same_type frame.type msg_router_disable_watchdog
      then with_connection r i set_no_watchdog
      else if same_type frame.type msg_router_mbx_init_with_reply
      then on_mbx_init r i frame body_len body
      else if same_type frame.type msg_router_mbx_delete
      then on_mbx_delete r i body_len body
      else on_data r i frame body

  -- `received` is what `recv_all` makes of the body: `none` if it fails.
  unfoldable pub handle_frame : Router → ℕ → FrameHeader → Option (List ℕ) → Router
  handle_frame r i frame received =
      let n = body_length frame in
      if ltb r.max_msg_size n
      then with_connection r i set_closed
      else if n == 0
      then dispatch r i frame n []
      else (elim received [ none ↦ r | some body ↦ dispatch r i frame n body ])
