-- ===== src/Router/Evl/Tests.antt =====
-- Runs of the router of src/router/evl_router.cpp on a concrete router.
use core_ra_t.Base.{
  ℕ, none, length, ◌<◌, ◌⊎◌, ◌≡◌, refl, Bool, true, false, some, List, [], ◌∷◌, ◌++◌, arith,
}
use core_ra_t.Base.Int.{pos}
use core_ra_t.Tims.Protocol.{FrameHeader, make_frame, msg_router_mbx_init_with_reply}
use core_ra_t.Message.Wire.{WireHeader, IsHeader, header_bytes}
use core_ra_t.Router.Tcp as Tcp
use core_ra_t.Router.Tcp.{Router, Link}
use core_ra_t.Router.Tcp.Sending.{emitting, if_taken}
use core_ra_t.Router.Tcp.Run.{Event}
use core_ra_t.Router.Evl.Routes
use core_ra_t.Router.Evl.Routes.{tcp, xbuf, peer}
use core_ra_t.Router.Evl.{EvlRouter, with_net, handle_frame}
use core_ra_t.Router.Evl.Erase.{erase}
use core_ra_t.Router.Evl.Equivalence.{handle_frame-erase}
use core_ra_t.Router.Evl.Run.{xbuf_round, bridged_packet, xbuf_round_lem}

abbrev all_up : Link → Bool
all_up l = true

abbrev no_device : ℕ → Bool
no_device m = false

abbrev every_device : ℕ → Bool
every_device m = true

abbrev all_written : ℕ → List ℕ → Bool
all_written m body = true

abbrev all_ready : Bool → Event → Bool
all_ready is_open e = is_open

-- A client, connection 0, and a peer, connection 1.
abbrev two_connections : Router
two_connections = record {
  registry = [];
  connections =
      record { index = 0; is_peer = false; is_open = true; watchdog_enabled = true }
      ∷ record { index = 1; is_peer = true; is_open = true; watchdog_enabled = true }
      ∷ [];
  local_mailboxes = 7 ∷ [];
  upstream_open = false;
  system_connections = [];
  max_msg_size = 64;
  next_index = 2;
  sent = [];
}

abbrev tcp_only : EvlRouter
tcp_only = record { net = two_connections; routes = (7, tcp 0) ∷ []; written = [] }

-- Mailbox 9 has a device.
abbrev with_device : EvlRouter
with_device = record { net = two_connections; routes = (9, xbuf 9) ∷ (7, tcp 0) ∷ []; written = [] }

abbrev data_frame : FrameHeader
data_frame = make_frame (pos 40) 7 9 0 1 2

abbrev init_frame : FrameHeader
init_frame = make_frame msg_router_mbx_init_with_reply 0 9 0 0 4

handle_frame-erase_example :
    erase (handle_frame all_up no_device all_written tcp_only 1 data_frame (some (1 ∷ 2 ∷ [])))
    ≡ Tcp.handle_frame all_up (erase tcp_only) 1 data_frame (some (1 ∷ 2 ∷ []))
unfolding make_frame
handle_frame-erase_example =
    handle_frame-erase all_up no_device all_written tcp_only 1 data_frame (some (1 ∷ 2 ∷ [])) tt
      refl

abbrev message_header : WireHeader
message_header = record {
  msg_type = 16777217;
  msg_size = 34;
  timestamp = 5;
  seq_number = 1;
  dest = 7;
  src = 9;
  flags = 0;
}

message_header-IsHeader : IsHeader message_header
message_header-IsHeader = record {
  msg_type_word = omega (arith);
  msg_size_word = omega (arith);
  timestamp_long = omega (arith);
  seq_number_word = omega (arith);
  dest_word = omega (arith);
  src_word = omega (arith);
  flags_word = omega (arith);
}

xbuf_round_lem_example :
    let after : EvlRouter =
      xbuf_round all_up with_device (header_bytes message_header ++ (1 ∷ 2 ∷ [])) in
    ((c : ℕ)
      → (Routes.find with_device.routes 7 ≡ some (tcp c))
        ⊎ (Routes.find with_device.routes 7 ≡ some (peer c))
      → after
        ≡ with_net with_device (
            emitting two_connections
              (if_taken all_up two_connections (bridged_packet c message_header (1 ∷ 2 ∷ [])))))
    × ((m : ℕ) → Routes.find with_device.routes 7 ≡ some (xbuf m) → after ≡ with_device)
    × (Routes.find with_device.routes 7 ≡ none → after ≡ with_device)
    × ((bytes : List ℕ) → length bytes < 32 → xbuf_round all_up with_device bytes ≡ with_device)
xbuf_round_lem_example =
    xbuf_round_lem all_up with_device message_header (1 ∷ 2 ∷ []) message_header-IsHeader
