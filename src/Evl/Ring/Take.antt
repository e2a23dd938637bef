-- ===== src/Evl/Ring/Take.antt =====
-- What a receiver takes from the ring.
use core_ra_t.Base.{
  ℕ, zero, suc, ◌+◌, ◌<◌, ◌≡◌, refl, sym, ap, ◌∙◌, inl, inr, true, false, none, some, List, [], ◌∷◌,
  arith, get_or, length, ℕ_discrete, if◌then◌else◌, ltb,
}
use core_ra_t.Base.Int.{ℤ, ltb_ℤ, ltb_ℤ→lt, ◌≤ℤ◌}
use core_ra_t.Evl.Ring.{
  SlotMeta, Ring, free_meta, meta_at, waits, no_slot, too_big, taken, in_use_loop, has_in_use_slot,
  find_highest_priority_slot, highest_loop, int8_min, take_highest,
}
use core_ra_t.Evl.Ring.Search.{Best, highest_loop-Best}
use core_ra_t.Evl.Ring.Valid.{IsValid, slot_bytes}
use core_ra_t.Evl.Ring.Post.{Posted, freed}

in_use_loop-true :
    (ms : List SlotMeta) (d : ℕ)
    → d < length ms
    → (get_or ms d free_meta).in_use ≡ true
    → in_use_loop ms ≡ true
unfolding in_use_loop
in_use_loop-true [] d lt u = absurd (omega arith)
in_use_loop-true (m ∷ ms) zero lt u = ground arith
in_use_loop-true (m ∷ ms) (suc d) lt u = ground (arith, in_use_loop-true ms d)

in_use_loop-false :
    (ms : List SlotMeta)
    → ((d : ℕ) → d < length ms → (get_or ms d free_meta).in_use ≡ false)
    → in_use_loop ms ≡ false
unfolding in_use_loop
in_use_loop-false [] h = refl
in_use_loop-false (m ∷ ms) h =
    ground (arith, h 0, in_use_loop-false ms (λ d lt. h (suc d) (omega arith)))

pub has_in_use_slot-true :
    (r : Ring) (d : ℕ)
    → IsValid r
    → d < r.capacity
    → (meta_at r d).in_use ≡ true
    → has_in_use_slot r ≡ true
unfolding has_in_use_slot
has_in_use_slot-true r d v lt u = in_use_loop-true r.meta d (omega (arith, v.metas)) u

-- No slot holds a message.
abbrev pub NoneInUse : Ring → Type 0
NoneInUse r = (d : ℕ) → d < r.capacity → (meta_at r d).in_use ≡ false

-- On a ring with no message in it the receiver waits.
pub take_waits : (r : Ring) (n : ℕ) → IsValid r → NoneInUse r → take_highest r n ≡ waits
unfolding take_highest has_in_use_slot
take_waits r n v h = ground (arith, in_use_loop-false r.meta (λ d lt. h d (omega (arith, v.metas))))

-- A slot that is in use and whose priority no other slot in use exceeds.
abbrev pub IsHighest : Ring → ℕ → Type 0
IsHighest r idx =
    (idx < r.capacity)
    × ((meta_at r idx).in_use ≡ true)
    × ((d : ℕ)
        → d < r.capacity
        → (meta_at r d).in_use ≡ true
        → (meta_at r d).priority ≤ℤ (meta_at r idx).priority)

-- In a well-formed ring where some slot in use has a priority above -128, the receiver turns to a
-- slot of the highest priority in use. A message larger than the buffer is left there; any other is
-- handed out with its meta entry and bytes, and its slot, and no other, is freed.
pub take_lem :
    (r : Ring) (n d : ℕ)
    → IsValid r
    → d < r.capacity
    → (meta_at r d).in_use ≡ true
    → ltb_ℤ int8_min (meta_at r d).priority ≡ true
    → (idx : ℕ) × IsHighest r idx
      × (take_highest r n ≡ (
          if ltb n (meta_at r idx).size
          then too_big
          else taken (meta_at r idx) (slot_bytes r idx) (freed r idx)))
unfolding take_highest has_in_use_slot find_highest_priority_slot
take_lem r n d v lt u above = go (highest_loop-Best r.meta 0 none int8_min)
  where
    go :
        Best r.meta 0 none int8_min (highest_loop r.meta 0 none int8_min)
        → (idx : ℕ) × IsHighest r idx
          × (take_highest r n ≡ (
              if ltb n (meta_at r idx).size
              then too_big
              else taken (meta_at r idx) (slot_bytes r idx) (freed r idx)))
    go (inl (e, le)) = absurd (
        omega
          (arith, le d (omega (arith, v.metas)) u, ltb_ℤ→lt int8_min (meta_at r d).priority above))
    go (inr (k, e, l, w, more, le)) = (
      k,
      (omega (arith, v.metas), w, λ i li ui. le i (omega (arith, v.metas)) ui),
      ground (arith, in_use_loop-true r.meta d (omega (arith, v.metas)) u, e ∙ ap some zero_k),
    )
      where
        zero_k : 0 + k ≡ k
        zero_k = omega arith

-- In a well-formed ring where some slot is in use and every slot in use has priority -128, the
-- search yields no slot although a message waits, and the receiver goes on with slot -1.
pub take_min_priority :
    (r : Ring) (n d : ℕ)
    → IsValid r
    → d < r.capacity
    → (meta_at r d).in_use ≡ true
    → ((i : ℕ) → i < r.capacity → (meta_at r i).in_use ≡ true → (meta_at r i).priority ≤ℤ int8_min)
    → take_highest r n ≡ no_slot
unfolding take_highest has_in_use_slot find_highest_priority_slot
take_min_priority r n d v lt u low = go (highest_loop-Best r.meta 0 none int8_min)
  where
    go :
        Best r.meta 0 none int8_min (highest_loop r.meta 0 none int8_min)
        → take_highest r n ≡ no_slot
    go (inl (e, le)) = ground (arith, in_use_loop-true r.meta d (omega (arith, v.metas)) u, e)
    go (inr (k, e, l, w, more, le)) = absurd (
        omega (
          arith,
          low k (omega (arith, v.metas)) w,
          ltb_ℤ→lt int8_min (get_or r.meta k free_meta).priority more,
        ))

-- The slot of a message that was posted to an empty ring is the only one in use.
pub only-Posted :
    (r u : Ring) (bytes : List ℕ) (p : ℤ) (src idx d : ℕ)
    → NoneInUse r
    → Posted r bytes p src idx u
    → d < r.capacity
    → (meta_at u d).in_use ≡ true
    → idx ≡ d
only-Posted r u bytes p src idx d h P lt used = elim (ℕ_discrete idx d) [
  | yes e ↦ e
  | no ne ↦
      absurd
        (clash (sym (h d lt) ∙ sym (ap (λ (m : SlotMeta). m.in_use) (P.others d lt ne)) ∙ used))
]
  where
    clash : false ≡ true → ⊥
    clash e = cc
