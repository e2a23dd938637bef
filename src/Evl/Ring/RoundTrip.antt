-- ===== src/Evl/Ring/RoundTrip.antt =====
-- A message that is posted to an empty ring, and the next receive.
use core_ra_t.Base.{
  ℕ, ◌%◌, ◌<◌, ◌≤◌, ◌≡◌, sym, ap, ◌∙◌, inl, inr, true, false, some, List, arith, length, Bool-cases,
}
use core_ra_t.Base.Int.{ℤ, ltb_ℤ, ◌≤ℤ◌}
use core_ra_t.Evl.Ring.{
  SlotMeta, Ring, meta_at, no_slot, taken, int8_min, post, to_int8, take_highest,
}
use core_ra_t.Evl.Ring.Valid.{IsValid, slot_bytes}
use core_ra_t.Evl.Ring.Post.{Posted, post-Posted, freed, freed-IsValid, freed_in_use}
use core_ra_t.Evl.Ring.Take.{NoneInUse, take_lem, take_min_priority, only-Posted}

module _ (r : Ring) (bytes : List ℕ) (src : ℕ) (v : IsValid r) (free : NoneInUse r)
    (some_slot : 0 < r.capacity) (fits : length bytes ≤ r.slot_size) where
  accepted :
      (p : ℤ)
      → (idx : ℕ) × (u : Ring) × (post r bytes p src ≡ some (true, u)) × Posted r bytes p src idx u
  accepted p = elim (post-Posted r bytes p src v fits) [
    | inl (_, (used, _)) ↦ absurd (clash (sym (free 0 some_slot) ∙ used 0 some_slot))
    | inr ok ↦ ok
  ]
    where
      clash : false ≡ true → ⊥
      clash e = cc

  abbrev message : ℤ → SlotMeta
  message p = record { priority = p; in_use = true; src = src; size = length bytes }

  -- Freeing the slot of the only message leaves none.
  emptied :
      (u : Ring) (idx k : ℕ) (p : ℤ) → Posted r bytes p src idx u → idx ≡ k → NoneInUse (freed u k)
  emptied u idx k p P same d lt = elim (Bool-cases (meta_at (freed u k) d).in_use) [
    | inr f ↦ f
    | inl t ↦
        let (kept, ne) =
          freed_in_use u k d (omega (arith, P.valid.metas, P.in_range, P.dims.0, same)) t in
        absurd (
          ne (
            sym same
            ∙ only-Posted r u bytes p src idx d free P (omega (arith, P.dims.0))
                (sym (ap (λ (m : SlotMeta). m.in_use) kept) ∙ t)))
  ]

  -- In a well-formed ring with no message in it, a message that fits a slot and whose priority is
  -- above -128 is accepted, and the next receive with a large enough buffer hands out exactly its
  -- bytes, priority and source, after which the ring is well formed with no message in it.
  pub post-take :
      (p : ℤ) (n : ℕ)
      → ltb_ℤ int8_min p ≡ true
      → length bytes ≤ n
      → (u : Ring) × (w : Ring) × (post r bytes p src ≡ some (true, u))
        × (take_highest u n
            ≡ taken
                (record { priority = p; in_use = true; src = src; size = length bytes })
                bytes
                w)
        × NoneInUse w
        × IsValid w
  post-take p n above room = go (accepted p)
    where
      go :
          (idx : ℕ) × (u : Ring) × (post r bytes p src ≡ some (true, u))
            × Posted r bytes p src idx u
          → (u : Ring) × (w : Ring) × (post r bytes p src ≡ some (true, u))
            × (take_highest u n
                ≡ taken
                    (record { priority = p; in_use = true; src = src; size = length bytes })
                    bytes
                    w)
            × NoneInUse w
            × IsValid w
      go (idx, u, e, P) =
          let (k, high, t) =
            take_lem u n idx P.valid (omega (arith, P.in_range, P.dims.0))
              (ap (λ (m : SlotMeta). m.in_use) P.meta_new)
              (ap (λ (m : SlotMeta). ltb_ℤ int8_min m.priority) P.meta_new ∙ above) in
          let same : idx ≡ k =
            only-Posted r u bytes p src idx k free P (omega (arith, high.0, P.dims.0)) high.1 in
          let fresh : meta_at u k ≡ message p = ap (meta_at u) (sym same) ∙ P.meta_new in
          let content : slot_bytes u k ≡ bytes = ap (slot_bytes u) (sym same) ∙ P.bytes_new in
          (
            u,
            freed u k,
            e,
            t ∙ ground (arith, fresh, content),
            emptied u idx k p P same,
            freed-IsValid u k P.valid high.0,
          )

  -- In such a ring, a message sent with a priority of 128 modulo 256, which is -128 as an int8_t, is
  -- accepted too, but the next receive finds no slot for it and goes on with slot -1.
  pub post-take_128 :
      (send_priority n : ℕ)
      → send_priority % 256 ≡ 128
      → (u : Ring) × (post r bytes (to_int8 send_priority) src ≡ some (true, u))
        × (take_highest u n ≡ no_slot)
  unfolding to_int8
  post-take_128 q n h = go (accepted (to_int8 q))
    where
      lowest : to_int8 q ≡ int8_min
      lowest = ground arith

      go :
          (idx : ℕ) × (u : Ring) × (post r bytes (to_int8 q) src ≡ some (true, u))
            × Posted r bytes (to_int8 q) src idx u
          → (u : Ring) × (post r bytes (to_int8 q) src ≡ some (true, u))
            × (take_highest u n ≡ no_slot)
      go (idx, u, e, P) = (
        u,
        e,
        take_min_priority u n idx P.valid (omega (arith, P.in_range, P.dims.0))
            (ap (λ (m : SlotMeta). m.in_use) P.meta_new) low,
      )
        where
          low :
              (i : ℕ)
              → i < u.capacity
              → (meta_at u i).in_use ≡ true
              → (meta_at u i).priority ≤ℤ int8_min
          low i lt used =
              let same : idx ≡ i =
                only-Posted r u bytes (to_int8 q) src idx i free P (omega (arith, P.dims.0)) used in
              let prio : (meta_at u i).priority ≡ int8_min =
                ap (λ k. (meta_at u k).priority) (sym same)
                ∙ ap (λ (m : SlotMeta). m.priority) P.meta_new
                ∙ lowest in
              ground (arith, prio)
