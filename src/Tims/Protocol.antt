-- ===== src/Tims/Protocol.antt =====
-- include/corerat/ipc/tims/protocol.hpp: the routing envelope of a TiMS frame.
-- An int8_t is a ℤ, the other fields are numbers below 2 ^ 8 or 2 ^ 32. A header travels as the 16
-- bytes of its packed struct, least significant byte first.
use core_ra_t.Base.{
  ℕ, ◌+◌, ◌-◌, ◌*◌, ◌/◌, ◌%◌, ◌^◌, ◌<◌, ◌≡◌, Bool, Option, none, some, List, [], ◌∷◌, arith, ltb,
  ◌==◌, ◌&&◌, if◌then◌else◌,
}
use core_ra_t.Base.Int.{ℤ, pos, negsuc, pos_part, neg_part, ◌≤ℤ◌}

abbrev pub msg_ok : ℤ
msg_ok = pos 0

abbrev pub msg_error : ℤ
msg_error = negsuc 0

abbrev pub msg_router_mbx_init_with_reply : ℤ
msg_router_mbx_init_with_reply = pos 13

abbrev pub msg_router_mbx_delete : ℤ
msg_router_mbx_delete = pos 14

abbrev pub msg_router_get_status : ℤ
msg_router_get_status = pos 17

abbrev pub msg_router_disable_watchdog : ℤ
msg_router_disable_watchdog = pos 19

abbrev pub msg_router_peer_hello : ℤ
msg_router_peer_hello = pos 20

abbrev pub msg_router_peer_register : ℤ
msg_router_peer_register = pos 21

abbrev pub msg_router_peer_delete : ℤ
msg_router_peer_delete = pos 22

abbrev pub frame_le_flag : ℕ
frame_le_flag = 3

abbrev pub sizeof_frame_header : ℕ
sizeof_frame_header = 16

abbrev pub sizeof_mbx_init_payload : ℕ
sizeof_mbx_init_payload = 4

pub record FrameHeader : Type 0 where
  pub flags : ℕ
  pub type : ℤ
  pub priority : ℕ
  pub seq_nr : ℕ
  pub dest : ℕ
  pub src : ℕ
  pub msglen : ℕ

unfoldable pub make_frame : ℤ → ℕ → ℕ → ℕ → ℕ → ℕ → FrameHeader
make_frame type dest src priority seq body_len = record {
  flags = frame_le_flag;
  type = type;
  priority = priority;
  seq_nr = seq;
  dest = dest;
  src = src;
  msglen = (sizeof_frame_header + body_len) % 2 ^ 32;
}

-- The length of the body, as every receiver of a frame computes it.
unfoldable pub body_length : FrameHeader → ℕ
body_length f = if ltb sizeof_frame_header f.msglen then f.msglen - sizeof_frame_header else 0

-- The tests of `switch (frame.type)`.
abbrev pub same_type : ℤ → ℤ → Bool
same_type a b = pos_part a == pos_part b && neg_part a == neg_part b

unfoldable pub u32_bytes : ℕ → List ℕ
u32_bytes v = v % 256 ∷ v / 2 ^ 8 % 256 ∷ v / 2 ^ 16 % 256 ∷ v / 2 ^ 24 % 256 ∷ []

abbrev pub u32_of_bytes : ℕ → ℕ → ℕ → ℕ → ℕ
u32_of_bytes a b c d = a + b * 2 ^ 8 + c * 2 ^ 16 + d * 2 ^ 24

unfoldable pub int8_byte : ℤ → ℕ
int8_byte (pos n) = n % 256
int8_byte (negsuc n) = 255 - n % 256

abbrev pub byte_int8 : ℕ → ℤ
byte_int8 b = if ltb b 128 then pos b else negsuc (255 - b)

-- `send_all(&frame, sizeof(frame))`, and `recv_all` into a header.
unfoldable pub frame_bytes : FrameHeader → List ℕ
frame_bytes f =
    f.flags
    ∷ int8_byte f.type
    ∷ f.priority
    ∷ f.seq_nr
    ∷ f.dest % 256
    ∷ f.dest / 2 ^ 8 % 256
    ∷ f.dest / 2 ^ 16 % 256
    ∷ f.dest / 2 ^ 24 % 256
    ∷ f.src % 256
    ∷ f.src / 2 ^ 8 % 256
    ∷ f.src / 2 ^ 16 % 256
    ∷ f.src / 2 ^ 24 % 256
    ∷ f.msglen % 256
    ∷ f.msglen / 2 ^ 8 % 256
    ∷ f.msglen / 2 ^ 16 % 256
    ∷ f.msglen / 2 ^ 24 % 256
    ∷ []

unfoldable pub frame_of_bytes : List ℕ → Option FrameHeader
frame_of_bytes
      (fl ∷ ty ∷ pr ∷ sq ∷ d0 ∷ d1 ∷ d2 ∷ d3 ∷ s0 ∷ s1 ∷ s2 ∷ s3 ∷ l0 ∷ l1 ∷ l2 ∷ l3 ∷ rest) =
    some (record {
      flags = fl;
      type = byte_int8 ty;
      priority = pr;
      seq_nr = sq;
      dest = u32_of_bytes d0 d1 d2 d3;
      src = u32_of_bytes s0 s1 s2 s3;
      msglen = u32_of_bytes l0 l1 l2 l3;
    })
frame_of_bytes _ = none

-- `memcpy` of a MbxInitPayload out of a body of at least its size.
unfoldable pub mbx_of_body : List ℕ → ℕ
mbx_of_body (a ∷ b ∷ c ∷ d ∷ rest) = u32_of_bytes a b c d
mbx_of_body _ = 0

-- The fields are in the ranges of their C++ types.
pub record IsFrame (f : FrameHeader) : Type 0 where
  pub flags_byte : f.flags < 256
  pub type_low : negsuc 127 ≤ℤ f.type
  pub type_high : f.type ≤ℤ pos 127
  pub priority_byte : f.priority < 256
  pub seq_byte : f.seq_nr < 256
  pub dest_word : f.dest < 2 ^ 32
  pub src_word : f.src < 2 ^ 32
  pub msglen_word : f.msglen < 2 ^ 32

pub byte_int8-int8_byte : (t : ℤ) → negsuc 127 ≤ℤ t → t ≤ℤ pos 127 → byte_int8 (int8_byte t) ≡ t
unfolding int8_byte
byte_int8-int8_byte (pos n) lo hi = ground arith
byte_int8-int8_byte (negsuc n) lo hi = ground arith

pub u32_round_trip :
    (v : ℕ)
    → v < 2 ^ 32
    → u32_of_bytes (v % 256) (v / 2 ^ 8 % 256) (v / 2 ^ 16 % 256) (v / 2 ^ 24 % 256) ≡ v
u32_round_trip v h = omega arith

-- A header with fields in range is what the receiver of its 16 bytes reads.
pub frame_of_bytes-frame_bytes :
    (f : FrameHeader) → IsFrame f → frame_of_bytes (frame_bytes f) ≡ some f
unfolding frame_of_bytes frame_bytes
frame_of_bytes-frame_bytes f v = ground (
  arith,
  byte_int8-int8_byte f.type v.type_low v.type_high,
  u32_round_trip f.dest v.dest_word,
  u32_round_trip f.src v.src_word,
  u32_round_trip f.msglen v.msglen_word,
)

pub mbx_of_body-u32_bytes : (mbx : ℕ) → mbx < 2 ^ 32 → mbx_of_body (u32_bytes mbx) ≡ mbx
unfolding mbx_of_body u32_bytes
mbx_of_body-u32_bytes mbx h = omega arith

-- A receiver recovers the body length that a frame was made with, if the frame's length fits 32 bits.
pub body_length-make_frame :
    (type : ℤ) (dest src priority seq n : ℕ)
    → n + 16 < 2 ^ 32
    → body_length (make_frame type dest src priority seq n) ≡ n
unfolding body_length make_frame
body_length-make_frame type dest src priority seq n h = ground arith
