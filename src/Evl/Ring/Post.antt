-- ===== src/Evl/Ring/Post.antt =====
-- `post`: which slot a message goes to, what it displaces, and when it is refused.
use core_ra_t.Base.{
  ℕ, zero, suc, ◌%◌, ◌^◌, ◌+◌, ◌*◌, ◌<◌, ◌≤◌, ◌≡◌, refl, sym, subst, ap, ◌∙◌, ◌⊎◌, inl, inr, Bool,
  true, false, Option, none, some, List, arith, get_or, set, length, length-set, get_or-set_self,
  get_or-set_ne, ℕ_discrete, Bool-cases, Option-cases,
}
use core_ra_t.Base.Bytes.{read_bytes, write_bytes, read-write_bytes_out}
use core_ra_t.Base.Int.{ℤ, ltb_ℤ, ltb_ℤ→lt, ltb_ℤ→le, ◌≤ℤ◌, pos_part, neg_part}
use core_ra_t.Evl.Ring.{
  SlotMeta, Ring, free_meta, meta_at, slot_offset, find_free_slot, free_loop, lowest_loop, int8_max,
  evict_lowest, choose_slot, fill_slot, post,
}
use core_ra_t.Evl.Ring.Search.{free_loop-some, free_loop-none, Worst, lowest_loop-Worst}
use core_ra_t.Evl.Ring.Valid.{
  IsValid, slot_bytes, fill_slot-Filled, slots_disjoint, slot_offset_lem,
}

abbrev pub AllInUse : Ring → Type 0
AllInUse r = (d : ℕ) → d < r.capacity → (meta_at r d).in_use ≡ true

-- The slot that a message of priority `p` takes is free, or holds a message of the lowest priority,
-- not above `p`, while no slot is free.
abbrev pub MayTake : Ring → ℤ → ℕ → Type 0
MayTake r p idx =
    ((meta_at r idx).in_use ≡ false)
    ⊎ (AllInUse r
        × ((meta_at r idx).priority ≤ℤ p)
        × ((d : ℕ) → d < r.capacity → (meta_at r idx).priority ≤ℤ (meta_at r d).priority))

-- A message is refused when every slot holds a message of higher priority, or of priority 127.
abbrev pub MayRefuse : Ring → ℤ → Type 0
MayRefuse r p =
    AllInUse r
    × (((d : ℕ)
          → d < r.capacity
          → pos_part p + neg_part (meta_at r d).priority
            < pos_part (meta_at r d).priority + neg_part p)
        ⊎ ((d : ℕ) → d < r.capacity → int8_max ≤ℤ (meta_at r d).priority))

-- The message stands in one slot, the meta entries of the others are as they were, nothing else is
-- written, and the ring is well formed.
pub record Posted (r : Ring) (bytes : List ℕ) (p : ℤ) (src : ℕ) (idx : ℕ) (u : Ring) : Type 0 where
  pub in_range : idx < r.capacity
  pub may_take : MayTake r p idx
  pub meta_new :
      meta_at u idx ≡ record { priority = p; in_use = true; src = src; size = length bytes }
  pub bytes_new : slot_bytes u idx ≡ bytes
  pub others : (d : ℕ) → d < r.capacity → (idx ≡ d → ⊥) → meta_at u d ≡ meta_at r d
  pub heap_new : u.heap ≡ write_bytes r.heap (slot_offset r idx) bytes
  pub dims : (u.capacity ≡ r.capacity) × (u.slot_size ≡ r.slot_size)
  pub valid : IsValid u

-- The messages of all other slots have their bytes.
abbrev pub OthersKept : Ring → ℕ → Ring → Type 0
OthersKept r idx u =
    (d : ℕ)
    → d < r.capacity
    → (idx ≡ d → ⊥)
    → (meta_at r d).in_use ≡ true
    → slot_bytes u d ≡ slot_bytes r d

-- The ring with one slot freed, as `evict_lowest` leaves it.
abbrev pub freed : Ring → ℕ → Ring
freed r w = record r { meta = set r.meta w (record (meta_at r w) { in_use = false }) }

abbrev Chosen : Ring → ℤ → Option (ℕ × Ring) → Type 0
Chosen r p o =
    ((o ≡ none) × MayRefuse r p)
    ⊎ ((idx : ℕ) × (u : Ring) × (o ≡ some (idx, u))
        × (idx < r.capacity)
        × MayTake r p idx
        × ((u ≡ r) ⊎ (u ≡ freed r idx)))

evict_lowest-Chosen : (r : Ring) (p : ℤ) → IsValid r → AllInUse r → Chosen r p (evict_lowest r p)
unfolding evict_lowest
evict_lowest-Chosen r p v used =
    go (lowest_loop r.meta 0 none int8_max) (lowest_loop-Worst r.meta 0 none int8_max) refl
  where
    go :
        (res : Option ℕ × ℤ)
        → Worst r.meta 0 none int8_max res
        → lowest_loop r.meta 0 none int8_max ≡ res
        → Chosen r p (evict_lowest r p)
    go res (inl (e, q, le)) eq =
        inl (ground (arith, eq, e), (used, inr (λ d lt. le d (omega (arith, v.metas)) (used d lt))))
    go res (inr (k, e, q, lt, u, more, le)) eq =
        elim (Bool-cases (ltb_ℤ p (get_or r.meta k free_meta).priority)) [
          | inl above ↦ inl (
            ground (arith, eq, e, q, above),
            (
              used,
              inl (λ d ld. omega (
                arith,
                le d (omega (arith, v.metas)) (used d ld),
                ltb_ℤ→lt p (get_or r.meta k free_meta).priority above,
              )),
            ),
          )
          | inr below ↦ inr (
            k,
            freed r k,
            ground (arith, eq, e ∙ ap some zero_k, q, below),
            omega (arith, v.metas),
            inr (
              used,
              ltb_ℤ→le p (get_or r.meta k free_meta).priority below,
              λ d ld. le d (omega (arith, v.metas)) (used d ld),
            ),
            inr refl,
          )
        ]
      where
        zero_k : 0 + k ≡ k
        zero_k = omega arith

choose_slot-Chosen : (r : Ring) (p : ℤ) → IsValid r → Chosen r p (choose_slot r p)
unfolding choose_slot find_free_slot
choose_slot-Chosen r p v = elim (Option-cases (free_loop r.meta 0)) [
  | inl e ↦
      subst (Chosen r p) (sym (ground (arith, e)))
        (evict_lowest-Chosen r p v (λ d lt. free_loop-none r.meta 0 d e (omega (arith, v.metas))))
  | inr (k, e) ↦
      let (d, same, lt, free) = free_loop-some r.meta 0 k e in
      inr (
        k,
        r,
        ground (arith, e),
        omega (arith, v.metas),
        inl (subst (λ i. (meta_at r i).in_use ≡ false) (omega (arith, same)) free),
        inl refl,
      )
]

module _ (r : Ring) (w : ℕ) where
  freed_ne : (d : ℕ) → (w ≡ d → ⊥) → meta_at (freed r w) d ≡ meta_at r d
  freed_ne d ne = get_or-set_ne r.meta w d _ free_meta ne

  pub freed_self : w < length r.meta → (meta_at (freed r w) w).in_use ≡ false
  freed_self lt =
      ap (λ (m : SlotMeta). m.in_use)
        (get_or-set_self r.meta w (record (meta_at r w) { in_use = false }) free_meta lt)

  pub freed_in_use :
      (d : ℕ)
      → w < length r.meta
      → (meta_at (freed r w) d).in_use ≡ true
      → (meta_at (freed r w) d ≡ meta_at r d) × ((w ≡ d → ⊥))
  freed_in_use d lt u = elim (ℕ_discrete w d) [
    | yes e ↦
        absurd
          (clash (sym (subst (λ k. (meta_at (freed r w) k).in_use ≡ false) e (freed_self lt)) ∙ u))
    | no ne ↦ (freed_ne d ne, ne)
  ]
    where
      clash : false ≡ true → ⊥
      clash e = cc

  -- Freeing a slot keeps the ring well formed.
  pub freed-IsValid : IsValid r → w < r.capacity → IsValid (freed r w)
  freed-IsValid v lt = record {
    metas = length-set r.meta w _ ∙ v.metas;
    memory = v.memory;
    sizes = λ d ld u.
        let (same, ne) = freed_in_use d (omega (arith, v.metas)) u in
        omega (
          arith,
          ap (λ (m : SlotMeta). m.size) same,
          v.sizes d ld (sym (ap (λ (m : SlotMeta). m.in_use) same) ∙ u),
        );
  }

abbrev Outcome : Ring → List ℕ → ℤ → ℕ → Option (Bool × Ring) → Type 0
Outcome r bytes p src o =
    ((o ≡ some (false, r)) × MayRefuse r p)
    ⊎ ((idx : ℕ) × (u : Ring) × (o ≡ some (true, u)) × Posted r bytes p src idx u)

module _ (r : Ring) (bytes : List ℕ) (p : ℤ) (src : ℕ) (v : IsValid r)
    (fits : length bytes ≤ r.slot_size) where
  fill_chosen :
      (idx : ℕ) (u : Ring)
      → idx < r.capacity
      → MayTake r p idx
      → (u ≡ r) ⊎ (u ≡ freed r idx)
      → choose_slot r p ≡ some (idx, u)
      → Outcome r bytes p src (post r bytes p src)
  unfolding post
  fill_chosen idx u lt may (inl same) e =
      let (f, filled, F) = fill_slot-Filled r idx bytes p src v lt fits in
      inr (
        idx,
        f,
        ground (arith, e, filled, ap (λ x. fill_slot x idx bytes p src) same),
        record {
          in_range = lt;
          may_take = may;
          meta_new = F.meta_new;
          bytes_new = F.bytes_new;
          others = λ d ld ne. F.meta_others d ne;
          heap_new = F.heap_new;
          dims = F.dims;
          valid = F.valid;
        },
      )
  fill_chosen idx u lt may (inr cleared) e =
      let (f, filled, F) =
        fill_slot-Filled (freed r idx) idx bytes p src (freed-IsValid r idx v lt) lt fits in
      inr (
        idx,
        f,
        ground (arith, e, filled, ap (λ x. fill_slot x idx bytes p src) cleared),
        record {
          in_range = lt;
          may_take = may;
          meta_new = F.meta_new;
          bytes_new = F.bytes_new;
          others = λ d ld ne. F.meta_others d ne ∙ freed_ne r idx d ne;
          heap_new = F.heap_new;
          dims = F.dims;
          valid = F.valid;
        },
      )

  pub post-Posted :
      ((post r bytes p src ≡ some (false, r)) × MayRefuse r p)
      ⊎ ((idx : ℕ) × (u : Ring) × (post r bytes p src ≡ some (true, u))
          × Posted r bytes p src idx u)
  unfolding post
  post-Posted = elim (choose_slot-Chosen r p v) [
    | inl (e, may) ↦ inl (ground (arith, e), may)
    | inr (idx, u, e, lt, may, how) ↦ fill_chosen idx u lt may how e
  ]

  -- Two slots with bytes in them are apart where no offset wraps.
  offsets_apart :
      (idx d n : ℕ)
      → r.capacity * r.slot_size ≤ 2 ^ 32
      → idx < r.capacity
      → d < r.capacity
      → (idx ≡ d → ⊥)
      → 0 < n
      → n ≤ r.slot_size
      → (slot_offset r d + n ≤ slot_offset r idx)
        ⊎ (slot_offset r idx + length bytes ≤ slot_offset r d)
  offsets_apart idx d n small li ld ne some_byte room =
      elim (slots_disjoint d idx r.slot_size n (length bytes) (λ e. ne (sym e)) room fits) [
        | inl h ↦ inl (
            omega (
              arith,
              h,
              slot_offset_lem r d n small ld some_byte room,
              slot_offset_lem r idx n small li some_byte room,
            ))
        | inr h ↦ inr (
            omega (
              arith,
              h,
              slot_offset_lem r d n small ld some_byte room,
              slot_offset_lem r idx n small li some_byte room,
            ))
      ]

  -- A slot without bytes has none to lose.
  kept_bytes :
      (idx d n : ℕ)
      → r.capacity * r.slot_size ≤ 2 ^ 32
      → idx < r.capacity
      → d < r.capacity
      → (idx ≡ d → ⊥)
      → n ≤ r.slot_size
      → read_bytes (write_bytes r.heap (slot_offset r idx) bytes) (slot_offset r d) n
        ≡ read_bytes r.heap (slot_offset r d) n
  kept_bytes idx d zero small li ld ne room = ground arith
  kept_bytes idx d (suc n) small li ld ne room =
      read-write_bytes_out r.heap (slot_offset r idx) bytes (slot_offset r d) (suc n)
        (offsets_apart idx d (suc n) small li ld ne (omega arith) room)

  Posted-bytes_others :
      (idx : ℕ) (u : Ring)
      → r.capacity * r.slot_size ≤ 2 ^ 32
      → Posted r bytes p src idx u
      → OthersKept r idx u
  Posted-bytes_others idx u small P d ld ne used =
      let same : (u.heap, u.slot_size, meta_at u d)
          ≡ (write_bytes r.heap (slot_offset r idx) bytes, r.slot_size, meta_at r d) =
        cc (P.heap_new, P.dims.1, P.others d ld ne) in
      ap (λ (x : List ℕ × ℕ × SlotMeta). read_bytes x.0 (d * x.1 % 2 ^ 32) x.2.size) same
      ∙ kept_bytes idx d (meta_at r d).size small P.in_range ld ne (v.sizes d ld used)

  -- In a well-formed ring whose slots have at most 2 ^ 32 bytes together, with a message that fits a
  -- slot, `post` never leaves the memory. It refuses the message and changes nothing, in which case
  -- every slot is in use and either all of them have a priority above the message's or all have
  -- priority 127; or it puts the message into one slot, with its bytes, priority and source, in which
  -- case that slot was free, or every slot was in use and that slot had the lowest priority, not above
  -- the message's. All other slots keep their meta entry and, where in use, their bytes, and the ring
  -- stays well formed.
  pub post_lem :
      r.capacity * r.slot_size ≤ 2 ^ 32
      → ((post r bytes p src ≡ some (false, r)) × MayRefuse r p)
        ⊎ ((idx : ℕ) × (u : Ring) × (post r bytes p src ≡ some (true, u))
            × Posted r bytes p src idx u
            × OthersKept r idx u)
  post_lem small = elim post-Posted [
    | inl refused ↦ inl refused
    | inr (idx, u, e, P) ↦ inr (idx, u, e, P, Posted-bytes_others idx u small P)
  ]
