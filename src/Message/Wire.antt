-- ===== src/Message/Wire.antt =====
-- include/corerat/messaging/wire_message.hpp: the header that every message starts with.
-- It travels as the 32 bytes of its struct, least significant byte first.
use core_ra_t.Base.{
  ℕ, ◌+◌, ◌*◌, ◌/◌, ◌%◌, ◌^◌, ◌<◌, ◌≡◌, refl, List, [], ◌∷◌, ◌++◌, arith, get_or, length,
}
use core_ra_t.Tims.Protocol.{u32_of_bytes, u32_round_trip}

pub record WireHeader : Type 0 where
  pub msg_type : ℕ
  pub msg_size : ℕ
  pub timestamp : ℕ
  pub seq_number : ℕ
  pub dest : ℕ
  pub src : ℕ
  pub flags : ℕ

abbrev pub sizeof_wire_header : ℕ
sizeof_wire_header = 32

-- `write_u32` and `write_u64` at the offsets of the fields.
unfoldable pub header_bytes : WireHeader → List ℕ
header_bytes h =
    h.msg_type % 256
    ∷ h.msg_type / 2 ^ 8 % 256
    ∷ h.msg_type / 2 ^ 16 % 256
    ∷ h.msg_type / 2 ^ 24 % 256
    ∷ h.msg_size % 256
    ∷ h.msg_size / 2 ^ 8 % 256
    ∷ h.msg_size / 2 ^ 16 % 256
    ∷ h.msg_size / 2 ^ 24 % 256
    ∷ h.timestamp % 256
    ∷ h.timestamp / 2 ^ 8 % 256
    ∷ h.timestamp / 2 ^ 16 % 256
    ∷ h.timestamp / 2 ^ 24 % 256
    ∷ h.timestamp / 2 ^ 32 % 256
    ∷ h.timestamp / 2 ^ 40 % 256
    ∷ h.timestamp / 2 ^ 48 % 256
    ∷ h.timestamp / 2 ^ 56 % 256
    ∷ h.seq_number % 256
    ∷ h.seq_number / 2 ^ 8 % 256
    ∷ h.seq_number / 2 ^ 16 % 256
    ∷ h.seq_number / 2 ^ 24 % 256
    ∷ h.dest % 256
    ∷ h.dest / 2 ^ 8 % 256
    ∷ h.dest / 2 ^ 16 % 256
    ∷ h.dest / 2 ^ 24 % 256
    ∷ h.src % 256
    ∷ h.src / 2 ^ 8 % 256
    ∷ h.src / 2 ^ 16 % 256
    ∷ h.src / 2 ^ 24 % 256
    ∷ h.flags % 256
    ∷ h.flags / 2 ^ 8 % 256
    ∷ h.flags / 2 ^ 16 % 256
    ∷ h.flags / 2 ^ 24 % 256
    ∷ []

-- The number at an offset.
abbrev pub u32_at : List ℕ → ℕ → ℕ
u32_at bs k =
    u32_of_bytes (get_or bs k 0) (get_or bs (k + 1) 0) (get_or bs (k + 2) 0) (get_or bs (k + 3) 0)

-- `memcpy` of the header out of the bytes of a message of at least its size.
unfoldable pub header_of : List ℕ → WireHeader
header_of bs = record {
  msg_type = u32_at bs 0;
  msg_size = u32_at bs 4;
  timestamp = u32_at bs 8 + u32_at bs 12 * 2 ^ 32;
  seq_number = u32_at bs 16;
  dest = u32_at bs 20;
  src = u32_at bs 24;
  flags = u32_at bs 28;
}

-- The fields are in the ranges of their C++ types.
pub record IsHeader (h : WireHeader) : Type 0 where
  pub msg_type_word : h.msg_type < 2 ^ 32
  pub msg_size_word : h.msg_size < 2 ^ 32
  pub timestamp_long : h.timestamp < 2 ^ 64
  pub seq_number_word : h.seq_number < 2 ^ 32
  pub dest_word : h.dest < 2 ^ 32
  pub src_word : h.src < 2 ^ 32
  pub flags_word : h.flags < 2 ^ 32

u64_round_trip :
    (v : ℕ)
    → v < 2 ^ 64
    → u32_of_bytes (v % 256) (v / 2 ^ 8 % 256) (v / 2 ^ 16 % 256) (v / 2 ^ 24 % 256)
        + u32_of_bytes (v / 2 ^ 32 % 256) (v / 2 ^ 40 % 256) (v / 2 ^ 48 % 256) (v / 2 ^ 56 % 256)
          * 2 ^ 32
      ≡ v
u64_round_trip v h = omega (arith, h)

-- A header with fields in range is what is read from the start of its message.
pub header_of-header_bytes :
    (h : WireHeader) (payload : List ℕ) → IsHeader h → header_of (header_bytes h ++ payload) ≡ h
unfolding header_of header_bytes
header_of-header_bytes h payload v = ground (
  arith,
  u32_round_trip h.msg_type v.msg_type_word,
  u32_round_trip h.msg_size v.msg_size_word,
  u64_round_trip h.timestamp v.timestamp_long,
  u32_round_trip h.seq_number v.seq_number_word,
  u32_round_trip h.dest v.dest_word,
  u32_round_trip h.src v.src_word,
  u32_round_trip h.flags v.flags_word,
)

pub length-header_bytes : (h : WireHeader) → length (header_bytes h) ≡ sizeof_wire_header
unfolding header_bytes
length-header_bytes h = refl
