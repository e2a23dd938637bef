-- ===== src/Tims/Mailbox.antt =====
-- src/tims_backend.cpp: a mailbox over a TCP connection to a router.
-- What the router sends stands in `incoming`, in bytes and oldest first, up to the end of the stream;
-- what the mailbox sends, in `outgoing`. The operating system decides whether the socket connects,
-- whether it takes what is sent, and whether a poll finds it readable: these are arguments.
-- `swap`, which belongs to the sertial library, takes whether the sender is little-endian and the
-- bytes of a WireHeader.
pub mod Receive
pub mod Send
mod Tests
use core_ra_t.Base.{
  ℕ, ◌+◌, ◌-◌, ◌%◌, ◌^◌, Bool, true, false, not, ◌&&◌, ◌||◌, Option, none, some, List, [], ◌∷◌,
  ◌++◌, length, take, drop, ltb, leb, ◌==◌, if◌then◌else◌,
}
use core_ra_t.Tims.Protocol.{
  FrameHeader, make_frame, same_type, u32_bytes, frame_bytes, frame_of_bytes, body_length,
  sizeof_frame_header, sizeof_mbx_init_payload, frame_le_flag, msg_ok, msg_router_get_status,
  msg_router_disable_watchdog, msg_router_mbx_init_with_reply,
}
use core_ra_t.Base.Int.{pos}

pub data TimsResult : Type 0 where
  success error_init error_send error_receive error_timeout error_invalid_msg error_not_init :
      TimsResult

pub record TimsConfig : Type 0 where
  pub mailbox_id : ℕ
  pub max_msg_size : ℕ
  pub priority : ℕ

pub record TimsMailbox : Type 0 where
  pub config : TimsConfig
  pub is_open : Bool
  pub is_initialized : Bool
  pub messages_sent : ℕ
  pub messages_received : ℕ
  pub sequence_number : ℕ
  pub incoming : List ℕ
  pub outgoing : List ℕ

abbrev pub new_mailbox : TimsConfig → TimsMailbox
new_mailbox config = record {
  config = config;
  is_open = false;
  is_initialized = false;
  messages_sent = 0;
  messages_received = 0;
  sequence_number = 0;
  incoming = [];
  outgoing = [];
}

-- `socket_.close()`.
abbrev pub close : TimsMailbox → TimsMailbox
close m = record m { is_open = false; incoming = [] }

-- The answers of a socket that takes everything.
abbrev pub always : TimsMailbox → Bool
always m = true

-- `socket_.send_all`: the router is given the bytes, if the socket takes them.
unfoldable pub send_all : Bool → TimsMailbox → List ℕ → TimsMailbox
send_all taken m bytes = if taken then record m { outgoing = m.outgoing ++ bytes } else m

-- `socket_.recv_all` of a number of bytes.
unfoldable pub recv_all : TimsMailbox → ℕ → Option (List ℕ × TimsMailbox)
recv_all m n =
    if ltb (length m.incoming) n
    then none
    else some (take n m.incoming, record m { incoming = drop n m.incoming })

-- `recv_all` into a FrameHeader.
unfoldable pub recv_frame : TimsMailbox → Option (FrameHeader × TimsMailbox)
recv_frame m = elim (recv_all m sizeof_frame_header) [
  | none ↦ none
  | some (bytes, m') ↦ elim (frame_of_bytes bytes) [ none ↦ none | some f ↦ some (f, m') ]
]

abbrev pub watchdog_frame : TimsMailbox → FrameHeader
watchdog_frame m =
    make_frame msg_router_disable_watchdog 0 m.config.mailbox_id (m.config.priority % 256) 0 0

abbrev pub register_frame : TimsMailbox → FrameHeader
register_frame m =
    make_frame msg_router_mbx_init_with_reply 0 m.config.mailbox_id (m.config.priority % 256) 0
      sizeof_mbx_init_payload

-- `connected` is none where the connection fails, and otherwise what the router will send on it.
unfoldable pub initialize : Option (List ℕ) → Bool → Bool → TimsMailbox → TimsResult × TimsMailbox
initialize connected watchdog_taken register_taken m =
    if m.is_initialized then (success, m) else (elim connected [
      | none ↦ (error_init, close m)
      | some stream ↦
          let m1 =
            send_all watchdog_taken (record m { is_open = true; incoming = stream })
              (frame_bytes (watchdog_frame m)) in
          if not watchdog_taken
          then (error_init, close m1)
          else (let m2 =
                send_all register_taken m1
                  (frame_bytes (register_frame m) ++ u32_bytes m.config.mailbox_id) in
              if not register_taken then (error_init, close m2) else (elim (recv_frame m2) [
                | none ↦ (error_init, close m2)
                | some (reply, m3) ↦
                    if same_type reply.type msg_ok
                    then (success, record m3 { is_initialized = true })
                    else (error_init, close m3)
              ]))
    ])

unfoldable pub shutdown : TimsMailbox → TimsMailbox
shutdown m = if m.is_initialized then record (close m) { is_initialized = false } else m

-- The header that `send_raw` makes.
abbrev pub data_header : TimsMailbox → ℕ → ℕ → FrameHeader
data_header m dest size =
    make_frame (pos 0) dest m.config.mailbox_id (m.config.priority % 256) (m.sequence_number % 256)
      (size % 2 ^ 32)

-- `message` is none for nullptr. The sequence number is a uint32_t.
unfoldable pub send_raw : Bool → Bool → TimsMailbox → Option (List ℕ) → ℕ → TimsResult × TimsMailbox
send_raw header_taken body_taken m message dest =
    if not m.is_initialized || not m.is_open then (error_not_init, m) else (elim message [
      | none ↦ (error_invalid_msg, m)
      | some bytes ↦
          if length bytes == 0 || ltb m.config.max_msg_size (length bytes)
          then (error_invalid_msg, m)
          else (let m1 = record m { sequence_number = (m.sequence_number + 1) % 2 ^ 32 } in
              let m2 = send_all header_taken m1 (frame_bytes (data_header m dest (length bytes))) in
              if not header_taken
              then (error_send, m2)
              else (let m3 = send_all body_taken m2 bytes in
                  if not body_taken
                  then (error_send, m3)
                  else (success, record m3 { messages_sent = m3.messages_sent + 1 })))
    ])

pub record TimsMetadata : Type 0 where
  pub src : ℕ
  pub dest : ℕ
  pub seq_nr : ℕ
  pub priority : ℕ
  pub flags : ℕ

-- How `receive_raw` ends: -1, -ETIMEDOUT, -EMSGSIZE, or a body with its metadata. `waiting` is a call
-- that has looked at every poll in the list and is in its loop still.
pub data Received : Type 0 where
  failed : Received
  timed_out : Received
  too_large : Received
  received : TimsMetadata → List ℕ → Received
  waiting : Received

abbrev pub metadata_of : FrameHeader → TimsMetadata
metadata_of f = record {
  src = f.src;
  dest = f.dest;
  seq_nr = f.seq_nr;
  priority = f.priority;
  flags = f.flags;
}

abbrev pub sizeof_wire_header : ℕ
sizeof_wire_header = 32

-- `FRAME_LE_FLAG` is 3, so `flags & FRAME_LE_FLAG` is nonzero where one of the two low bits is set.
abbrev pub is_little : FrameHeader → Bool
is_little f = not (f.flags % 4 == 0)

module _ (swap : Bool → List ℕ → List ℕ) where
  unfoldable pub swap_header : FrameHeader → List ℕ → List ℕ
  swap_header f body =
      if leb sizeof_wire_header (length body)
      then swap (is_little f) (take sizeof_wire_header body) ++ drop sizeof_wire_header body
      else body

  -- One round for each answer of `poll_in`, true where it is positive. The status reply is sent on a
  -- socket that takes it, or is lost: `status_taken`.
  unfoldable pub receive_loop :
      (TimsMailbox → Bool) → List Bool → TimsMailbox → ℕ → Received × TimsMailbox
  receive_loop status_taken [] m buffer_size = (waiting, m)
  receive_loop status_taken (ready ∷ polls) m buffer_size =
      if not ready then (timed_out, m) else (elim (recv_frame m) [
        | none ↦ (failed, record m { incoming = [] })
        | some (frame, m1) ↦
            let reply = make_frame msg_ok frame.src m.config.mailbox_id 0 0 0 in
            let after_status =
              receive_loop status_taken polls (send_all (status_taken m1) m1 (frame_bytes reply))
                buffer_size in
            let after_empty = receive_loop status_taken polls m1 buffer_size in
            if same_type frame.type msg_router_get_status
            then after_status
            else if leb frame.msglen sizeof_frame_header
            then after_empty
            else if ltb buffer_size (body_length frame)
            then (too_large, m1)
            else (elim (recv_all m1 (body_length frame)) [
              | none ↦ (failed, record m1 { incoming = [] })
              | some (body, m2) ↦ (
                received (metadata_of frame) (swap_header frame body),
                record m2 { messages_received = m2.messages_received + 1 },
              )
            ])
      ])

  unfoldable pub receive_raw :
      (TimsMailbox → Bool) → List Bool → TimsMailbox → ℕ → Received × TimsMailbox
  receive_raw status_taken polls m buffer_size =
      if not m.is_initialized || not m.is_open
      then (failed, m)
      else receive_loop status_taken polls m buffer_size

-- `readable` is the answer of a poll that does not wait.
unfoldable pub has_message : Bool → TimsMailbox → Bool
has_message readable m = m.is_initialized && m.is_open && readable

-- The move constructor: the new mailbox, and what is left of the other.
unfoldable pub move_construct : TimsMailbox → TimsMailbox × TimsMailbox
move_construct other = (other, record (close other) { is_initialized = false })

-- The move assignment to another mailbox: whether it closes a socket of its own, the mailbox after,
-- and what is left of the other.
unfoldable pub move_assign : TimsMailbox → TimsMailbox → Bool × TimsMailbox × TimsMailbox
move_assign self other = (self.is_open, (move_construct other).0, (move_construct other).1)
