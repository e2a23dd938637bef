-- ===== src/Evl/Ring/Valid.antt =====
-- Well-formed rings, and what a write to one slot leaves alone.
use core_ra_t.Base.{
  ℕ, ◌%◌, ◌^◌, ◌+◌, ◌*◌, ◌<◌, ◌≤◌, ◌≡◌, refl, sym, subst, ap, ◌∙◌, ◌⊎◌, inl, inr, true, false, some,
  List, arith, set, length, length-set, length-replicate, get_or-replicate, get_or-set_self,
  get_or-set_ne, dec_lt, ℕ_discrete,
}
use core_ra_t.Base.Int.{ℤ}
use core_ra_t.Base.Bytes.{read_bytes, write_bytes, length-write_bytes, read-write_bytes}
use core_ra_t.Evl.Ring.{SlotMeta, Ring, free_meta, meta_at, slot_offset, fill_slot, allocate_ring}

pub record IsValid (r : Ring) : Type 0 where
  pub metas : length r.meta ≡ r.capacity
  pub memory : length r.heap ≡ r.capacity * r.slot_size
  pub sizes :
      (d : ℕ) → d < r.capacity → (meta_at r d).in_use ≡ true → (meta_at r d).size ≤ r.slot_size

-- The message bytes of a slot.
abbrev pub slot_bytes : Ring → ℕ → List ℕ
slot_bytes r d = read_bytes r.heap (slot_offset r d) (meta_at r d).size

-- A new ring is well formed, and no slot of it is in use.
pub allocate_ring-IsValid : (slots slot_size : ℕ) → IsValid (allocate_ring slots slot_size)
unfolding allocate_ring
allocate_ring-IsValid slots slot_size = record {
  metas = length-replicate slots free_meta;
  memory = length-replicate (slots * slot_size) 0;
  sizes = λ d lt u.
      absurd (false_ne (sym (ap (λ m. m.in_use) (get_or-replicate slots d free_meta)) ∙ u));
}
  where
    false_ne : false ≡ true → ⊥
    false_ne e = cc

slots_apart : (d e s : ℕ) → d < e → d * s + s ≤ e * s
slots_apart d e s h = grind arith

pub slot_end : (d c s : ℕ) → d < c → d * s + s ≤ c * s
slot_end d c s h = slots_apart d c s h

-- Where all slots together have at most 2 ^ 32 bytes, no offset of a slot wraps.
pub slot_offset_lem :
    (r : Ring) (d n : ℕ)
    → r.capacity * r.slot_size ≤ 2 ^ 32
    → d < r.capacity
    → 0 < n
    → n ≤ r.slot_size
    → slot_offset r d ≡ d * r.slot_size
slot_offset_lem r d n small lt some_byte fits = omega (arith, slot_end d r.capacity r.slot_size lt)

-- The slots of one ring do not overlap.
pub slots_disjoint :
    (d e s m n : ℕ) → (d ≡ e → ⊥) → m ≤ s → n ≤ s → (d * s + m ≤ e * s) ⊎ (e * s + n ≤ d * s)
slots_disjoint d e s m n ne hm hn = elim (dec_lt d e) [
  | yes p ↦ inl (omega (arith, slots_apart d e s p))
  | no p ↦ inr (omega (arith, slots_apart e d s (omega arith)))
]

-- What `fill_slot` makes of a slot: the message there, and every other slot as it was.
pub record Filled (r : Ring) (idx : ℕ) (bytes : List ℕ) (p : ℤ) (src : ℕ) (u : Ring) : Type 0 where
  pub meta_new :
      meta_at u idx ≡ record { priority = p; in_use = true; src = src; size = length bytes }
  pub bytes_new : slot_bytes u idx ≡ bytes
  pub meta_others : (d : ℕ) → (idx ≡ d → ⊥) → meta_at u d ≡ meta_at r d
  pub heap_new : u.heap ≡ write_bytes r.heap (slot_offset r idx) bytes
  pub dims : (u.capacity ≡ r.capacity) × (u.slot_size ≡ r.slot_size)
  pub valid : IsValid u

wrapped-le : (x : ℕ) → x % 2 ^ 32 ≤ x
wrapped-le x = omega arith

module _ (r : Ring) (idx : ℕ) (bytes : List ℕ) (p : ℤ) (src : ℕ) (v : IsValid r)
    (lt : idx < r.capacity) (fits : length bytes ≤ r.slot_size) where
  message_meta : SlotMeta
  message_meta = record { priority = p; in_use = true; src = src; size = length bytes }

  filled : Ring
  filled = record r {
    heap = write_bytes r.heap (slot_offset r idx) bytes;
    meta = set r.meta idx message_meta;
  }

  inside : slot_offset r idx + length bytes ≤ length r.heap
  inside =
      omega
        (arith, v.memory, slot_end idx r.capacity r.slot_size lt, wrapped-le (idx * r.slot_size))

  fill_slot_lem : fill_slot r idx bytes p src ≡ some filled
  unfolding fill_slot filled message_meta
  fill_slot_lem = ground (arith, inside)

  meta_self : meta_at filled idx ≡ message_meta
  unfolding filled
  meta_self = get_or-set_self r.meta idx message_meta free_meta (omega (arith, v.metas))

  meta_ne : (d : ℕ) → (idx ≡ d → ⊥) → meta_at filled d ≡ meta_at r d
  unfolding filled
  meta_ne d ne = get_or-set_ne r.meta idx d message_meta free_meta ne

  size_ok :
      (d : ℕ)
      → d < r.capacity
      → (meta_at filled d).in_use ≡ true
      → (meta_at filled d).size ≤ r.slot_size
  unfolding message_meta
  size_ok d ld u = elim (ℕ_discrete idx d) [
    | yes e ↦
        subst (λ k. (meta_at filled k).size ≤ r.slot_size) e
          (omega (arith, ap (λ (m : SlotMeta). m.size) meta_self))
    | no ne ↦ omega (
      arith,
      ap (λ (m : SlotMeta). m.size) (meta_ne d ne),
      v.sizes d ld (sym (ap (λ (m : SlotMeta). m.in_use) (meta_ne d ne)) ∙ u),
    )
  ]

  filled-IsValid : IsValid filled
  unfolding filled message_meta
  filled-IsValid = record {
    metas = length-set r.meta idx message_meta ∙ v.metas;
    memory = length-write_bytes r.heap (slot_offset r idx) bytes ∙ v.memory;
    sizes = size_ok;
  }

  pub fill_slot-Filled :
      (u : Ring) × (fill_slot r idx bytes p src ≡ some u) × Filled r idx bytes p src u
  unfolding filled message_meta
  fill_slot-Filled = (
    filled,
    fill_slot_lem,
    record {
      meta_new = meta_self;
      bytes_new =
          ap
            (λ (m : SlotMeta).
              read_bytes (write_bytes r.heap (slot_offset r idx) bytes) (slot_offset r idx) m.size)
            meta_self
          ∙ read-write_bytes r.heap (slot_offset r idx) bytes inside;
      meta_others = meta_ne;
      heap_new = refl;
      dims = (refl, refl);
      valid = filled-IsValid;
    },
  )
