-- ===== src/Message/Sample.antt =====
-- A small stand-in for the library that serialises: a message is its header and one byte. It is used
-- where a run of the code on concrete messages needs one.
use core_ra_t.Base.{
  ℕ, ◌<◌, ◌^◌, ◌≡◌, refl, ap, ◌∙◌, arith, Option, some, List, [], ◌∷◌, ◌++◌, get_or,
}
use core_ra_t.Message.Wire.{WireHeader, IsHeader, header_bytes, header_of, header_of-header_bytes}
use core_ra_t.Message.Registry.Lookup.{Inverts}

abbrev pub small_sertial : ℕ → WireHeader → ℕ → List ℕ
small_sertial t h x = header_bytes h ++ (x ∷ [])

abbrev pub small_deserialize : ℕ → List ℕ → Option (WireHeader × ℕ)
small_deserialize t bytes = some (header_of bytes, get_or bytes 32 0)

abbrev pub small_header : WireHeader
small_header = record {
  msg_type = 0;
  msg_size = 0;
  timestamp = 5;
  seq_number = 1;
  dest = 7;
  src = 9;
  flags = 0;
}

pub small_header-IsHeader :
    (id : ℕ) → id < 2 ^ 32 → IsHeader (record small_header { msg_type = id })
small_header-IsHeader id h = record {
  msg_type_word = h;
  msg_size_word = omega (arith);
  timestamp_long = omega (arith);
  seq_number_word = omega (arith);
  dest_word = omega (arith);
  src_word = omega (arith);
  flags_word = omega (arith);
}

last_byte : (h : WireHeader) (x : ℕ) → get_or (header_bytes h ++ (x ∷ [])) 32 0 ≡ x
unfolding header_bytes
last_byte h x = refl

pub small-Inverts : Inverts small_sertial small_deserialize
small-Inverts t h x v =
    ap (λ k. some (k, get_or (header_bytes h ++ (x ∷ [])) 32 0))
      (header_of-header_bytes h (x ∷ []) v)
    ∙ ap (λ k. some (h, k)) (last_byte h x)
