-- ===== src/Router/Tcp/Run.antt =====
-- The life of connections in src/router/tcp_router.cpp: accepting and connecting, the loop of
-- `Connection::run`, and the readers of the upstream links.
pub mod Life
use core_ra_t.Base.{
  ℕ, zero, suc, ◌+◌, Bool, true, false, Option, none, some, List, [], ◌∷◌, ◌++◌, ltb, ◌==◌,
  if◌then◌else◌,
}
use core_ra_t.Tims.Protocol.{FrameHeader, body_length}
use core_ra_t.Router.Registry
use core_ra_t.Router.Tcp.{
  Router, Connection, SystemConnection, Link, connection, upstream, system_route, lookup_connection,
  link_open, send, advertise_as_peer, handle_frame,
}

-- What the socket of a connection offers one round of the loop: nothing within the poll timeout, the
-- end of the stream or an error in the header, or a header with what `recv_all` makes of the body.
pub data Event : Type 0 where
  idle : Event
  broken : Event
  frame : FrameHeader → Option (List ℕ) → Event

-- One round of the accept loop with a new connection.
pub accept : Router → Router
accept r = record r {
  connections =
      r.connections
      ++ (record { index = r.next_index; is_peer = false; is_open = true; watchdog_enabled = true }
          ∷ []);
  next_index = r.next_index + 1;
}

abbrev pub set_system_closed : SystemConnection → SystemConnection
set_system_closed s = record s { is_open = false }

pub close_system : List SystemConnection → ℕ → List SystemConnection
close_system [] k = []
close_system (s ∷ ss) zero = set_system_closed s ∷ ss
close_system (s ∷ ss) (suc k) = s ∷ close_system ss k

pub close_link : Router → Link → Router
unfolding close_system
close_link r (connection i) = r
close_link r upstream = record r { upstream_open = false }
close_link r (system_route k) = record r {
  system_connections = close_system r.system_connections k;
}

-- `connect_to_upstream` and `connect_to_system_routes`: the configured routes with whether their
-- sockets connected. A route that does not connect is left out.
pub connect_to_upstream : Router → Option Bool → Router
connect_to_upstream r none = r
connect_to_upstream r (some connected) = record r { upstream_open = connected }

pub connect_to_system_routes : Router → List (ℕ × Bool) → Router
connect_to_system_routes r [] = r
connect_to_system_routes r ((sys, connected) ∷ rest) =
    connect_to_system_routes
      (if connected
        then record r {
          system_connections =
              r.system_connections ++ (record { system_id = sys; is_open = true } ∷ []);
        }
        else r)
      rest

module _ (up : Link → Bool) where
  -- One peer of `connect_to_peers` whose socket connected, with the start of its `run`.
  pub connect_peer : Router → Router
  unfolding advertise_as_peer
  connect_peer r =
      let r' = record r {
        connections =
            r.connections
            ++ (record {
              index = r.next_index;
              is_peer = true;
              is_open = true;
              watchdog_enabled = true;
            }
                ∷ []);
        next_index = r.next_index + 1;
      } in
      advertise_as_peer up r' r.next_index

  pub connect_to_peers : Router → List Bool → Router
  unfolding connect_peer
  connect_to_peers r [] = r
  connect_to_peers r (connected ∷ rest) =
      connect_to_peers (if connected then connect_peer r else r) rest

  -- A round of `run_connection_reader`: whether the loop goes on, and the router after.
  pub reader_round : Router → Link → Event → Bool × Router
  unfolding close_link send
  reader_round r l idle = (true, r)
  reader_round r l broken = (false, close_link r l)
  reader_round r l (frame header received) =
      let n = body_length header in
      if ltb r.max_msg_size n
      then (false, close_link r l)
      else (let body = (if n == 0 then some [] else received) in
          elim body [
            | none ↦ (false, close_link r l)
            | some bytes ↦ elim (Registry.find r.registry header.dest) [
              | none ↦ (true, r)
              | some d ↦ (true, (send up r (connection d) header bytes).1)
            ]
          ])

  -- `poll` says whether a socket, open or closed, is ready when the network offers an event; the
  -- operating system decides it.
  module _ (poll : Bool → Event → Bool) where
    -- A round of the loop of `Connection::run`: whether the loop goes on, and the router after.
    pub run_round : Router → ℕ → Event → Bool × Router
    unfolding lookup_connection
    run_round r i e =
        if poll (lookup_connection r.connections i).is_open e
        then (elim e [
          | idle ↦ (true, r)
          | broken ↦ (false, r)
          | frame header received ↦ (true, handle_frame up r i header received)
        ])
        else (true, r)

    -- The rest of the loop, over what the network offers until the router is told to stop. Its end,
    -- by a break or at the stop, takes the connection's mailboxes out of the registry.
    pub run : Router → ℕ → List Event → Router
    unfolding run_round
    run r i [] = record r { registry = Registry.remove_all r.registry i }
    run r i (e ∷ es) =
        let (on, r') = run_round r i e in
        let rest = run r' i es in
        if on then rest else record r' { registry = Registry.remove_all r'.registry i }
