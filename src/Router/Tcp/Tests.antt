-- ===== src/Router/Tcp/Tests.antt =====
-- Runs of the router of src/router/tcp_router.cpp on a concrete router.
use core_ra_t.Base.{
  ℕ, ◌++◌, ◌≡◌, ◌≢◌, ◌↔◌, ◌⊎◌, refl, inr, Bool, true, false, none, some, [], ◌∷◌, arith, ◌==◌,
  if◌then◌else◌,
}
use core_ra_t.Tims.Protocol.{
  u32_bytes, FrameHeader, make_frame, mbx_of_body, body_length, msg_router_mbx_init_with_reply,
  msg_router_mbx_delete, msg_router_peer_register,
}
use core_ra_t.Base.Int.{pos}
use core_ra_t.Router.Registry
use core_ra_t.Router.Registry.{find-remove_all}
use core_ra_t.Router.Tcp.{connection, Router, Link, lookup_connection, link_open, handle_frame}
use core_ra_t.Router.Tcp.Sending.{emitting, if_taken, to_peers, register_packet, delete_packet}
use core_ra_t.Router.Tcp.Registration.{reply_packet, IsLocal, mbx_init_lem, mbx_delete_lem}
use core_ra_t.Router.Tcp.Invariant.{IsValid, handle_frame-IsValid}
use core_ra_t.Tims.Mailbox.{TimsMailbox, new_mailbox, register_frame, data_header}
use core_ra_t.Router.Tcp.Client.{register-deliver}
use core_ra_t.Router.Tcp.Run.{Event, idle, broken, frame, run_round, run}
use core_ra_t.Router.Tcp.Run.Life.{oversize_stalls, run-forgets}

-- Every link takes what is sent on it.
abbrev all_up : Link → Bool
all_up l = true

-- An open socket is ready when something is offered, and a closed one never is.
abbrev open_ready : Bool → Event → Bool
open_ready is_open idle = false
open_ready is_open broken = is_open
open_ready is_open (frame f body) = is_open

closed_idle : (e : Event) → open_ready false e ≡ false
closed_idle idle = refl
closed_idle broken = refl
closed_idle (frame f body) = refl

-- A client, connection 0, that has registered mailbox 7, and a peer, connection 1.
abbrev two_connections : Router
two_connections = record {
  registry = (7, 0) ∷ [];
  connections =
      record { index = 0; is_peer = false; is_open = true; watchdog_enabled = true }
      ∷ record { index = 1; is_peer = true; is_open = true; watchdog_enabled = true }
      ∷ [];
  local_mailboxes = 7 ∷ [];
  upstream_open = false;
  system_connections = [];
  max_msg_size = 64;
  next_index = 2;
  sent = [];
}

two_connections-IsValid : IsValid two_connections
two_connections-IsValid = record {
  routes = (tt, tt);
  owners = (omega arith, tt);
  indices = (omega arith, (omega arith, tt));
  distinct = (((λ e. omega (arith, e)), tt), (tt, tt));
}

abbrev data_frame : FrameHeader
data_frame = make_frame (pos 40) 7 9 0 1 2

handle_frame-IsValid_example :
    IsValid (handle_frame all_up two_connections 1 data_frame (some (5 ∷ 6 ∷ [])))
handle_frame-IsValid_example =
    handle_frame-IsValid all_up two_connections 1 data_frame (some (5 ∷ 6 ∷ [])) (omega arith)
      two_connections-IsValid

run-forgets_example :
    IsValid (run all_up open_ready two_connections 0 (idle ∷ broken ∷ []))
    × ((j : ℕ)
        → Registry.find (run all_up open_ready two_connections 0 (idle ∷ broken ∷ [])).registry j
          ≢ some 0)
run-forgets_example =
    run-forgets all_up open_ready two_connections 0 (idle ∷ broken ∷ []) (omega arith)
      two_connections-IsValid

abbrev init_frame : FrameHeader
init_frame = make_frame msg_router_mbx_init_with_reply 0 9 0 1 4

mbx_init_lem_example :
    let after : Router =
      handle_frame all_up two_connections 0 init_frame (some (8 ∷ 0 ∷ 0 ∷ 0 ∷ [])) in
    let mbx : ℕ = mbx_of_body (8 ∷ 0 ∷ 0 ∷ 0 ∷ []) in
    (Registry.find two_connections.registry mbx ≡ none
      → ((j : ℕ)
          → Registry.find after.registry j
            ≡ (if mbx == j then some 0 else Registry.find two_connections.registry j))
        × ((j : ℕ)
            → IsLocal j after.local_mailboxes
              ↔ ((mbx ≡ j) ⊎ IsLocal j two_connections.local_mailboxes))
        × (after.sent
            ≡ two_connections.sent
              ++ (if_taken all_up two_connections (reply_packet 0 true init_frame)
                  ++ to_peers all_up two_connections two_connections.connections
                      (λ p. register_packet p mbx)))
        × (after ≡ record two_connections {
          registry = after.registry;
          local_mailboxes = after.local_mailboxes;
          sent = after.sent;
        }))
    × ((d : ℕ)
        → Registry.find two_connections.registry mbx ≡ some d
        → after
          ≡ emitting two_connections
              (if_taken all_up two_connections (reply_packet 0 false init_frame)))
unfolding make_frame body_length
mbx_init_lem_example =
    mbx_init_lem all_up two_connections 0 init_frame (some (8 ∷ 0 ∷ 0 ∷ 0 ∷ []))
      (8 ∷ 0 ∷ 0 ∷ 0 ∷ []) refl (omega arith) (inr ((λ e. omega (arith, e)), refl)) (omega arith)

abbrev delete_frame : FrameHeader
delete_frame = make_frame msg_router_mbx_delete 0 9 0 1 4

mbx_delete_lem_example :
    ((j : ℕ)
      → Registry.find
          (handle_frame all_up two_connections 1 delete_frame (some (7 ∷ 0 ∷ 0 ∷ 0 ∷ []))).registry
          j
        ≡ (if mbx_of_body (7 ∷ 0 ∷ 0 ∷ 0 ∷ []) == j
            then none
            else Registry.find two_connections.registry j))
    × ((handle_frame all_up two_connections 1 delete_frame (some (7 ∷ 0 ∷ 0 ∷ 0 ∷ []))).sent
        ≡ to_peers all_up two_connections two_connections.connections
            (λ p. delete_packet p (mbx_of_body (7 ∷ 0 ∷ 0 ∷ 0 ∷ []))))
    × ((handle_frame all_up two_connections 1 delete_frame (some (7 ∷ 0 ∷ 0 ∷ 0 ∷ []))).connections
        ≡ two_connections.connections)
unfolding make_frame body_length
mbx_delete_lem_example =
    mbx_delete_lem all_up two_connections 1 delete_frame (some (7 ∷ 0 ∷ 0 ∷ 0 ∷ []))
      (7 ∷ 0 ∷ 0 ∷ 0 ∷ []) refl (omega arith) (inr ((λ e. omega (arith, e)), refl)) (omega arith)

abbrev peer_frame : FrameHeader
peer_frame = make_frame msg_router_peer_register 0 0 0 0 4

-- A frame with a body of 100 bytes, over the maximum.
abbrev big_frame : FrameHeader
big_frame = make_frame (pos 40) 7 9 0 1 100

oversize_stalls_example :
    ((handle_frame all_up two_connections 0 big_frame none).registry ≡ (7, 0) ∷ [])
    × ((handle_frame all_up two_connections 0 big_frame none).local_mailboxes ≡ 7 ∷ [])
    × ((e : Event)
        → run_round all_up open_ready (handle_frame all_up two_connections 0 big_frame none) 0 e
          ≡ (true, handle_frame all_up two_connections 0 big_frame none))
unfolding make_frame body_length
oversize_stalls_example =
    oversize_stalls all_up open_ready closed_idle two_connections 0 big_frame none (omega arith)

abbrev mailbox_config : ℕ → TimsMailbox
mailbox_config id = new_mailbox (record { mailbox_id = id; max_msg_size = 64; priority = 10 })

register-deliver_example :
    (q : Router) × (q
      ≡ handle_frame all_up two_connections 0
          (register_frame (mailbox_config 8))
          (some (u32_bytes 8)))
    × (handle_frame all_up q 1 (data_header (mailbox_config 9) 8 2) (some (5 ∷ 6 ∷ []))
        ≡ emitting q (
            record {
              link = connection 0;
              header = data_header (mailbox_config 9) 8 2;
              body = 5 ∷ 6 ∷ [];
            }
            ∷ []))
unfolding link_open lookup_connection Registry.find
register-deliver_example =
    register-deliver all_up two_connections 0 1 (mailbox_config 8) (mailbox_config 9) (5 ∷ 6 ∷ [])
      (omega arith) (omega arith) refl refl (omega arith, omega arith, omega arith, omega arith)
      (omega arith)
