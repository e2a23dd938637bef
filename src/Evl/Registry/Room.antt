-- ===== src/Evl/Registry/Room.antt =====
-- How full the registry gets: slots in use, tombstones among them.
use core_ra_t.Base.{
  ℕ, zero, suc, ◌+◌, ◌-◌, ◌%◌, ◌<◌, ◌≤◌, ◌≡◌, refl, sym, ap, ◌∙◌, ◌≢◌, inl, inr, Option, none, [],
  ◌∷◌, arith, set, length, ◌==◌, ℕ_discrete, if◌then◌else◌, Option-cases,
}
use core_ra_t.Evl.Registry.{
  Table, RegistryEntry, registry_capacity, registry_hash, registry_insert, registry_remove,
  registry_find, slot_at, id_at,
}
use core_ra_t.Evl.Registry.Probe.{probe, probe-some, probe-none, Stops}
use core_ra_t.Evl.Registry.Map.{IsChained, Holds, find_absent}
use core_ra_t.Evl.Registry.Remove.{remove-Removed}
use core_ra_t.Evl.Registry.Update.{HasRoom, insert-set, insert-full}

-- The slots that hold an id, live or tombstone.
abbrev pub used : Table → ℕ
used [] = 0
used (e ∷ t) = (if e.id == 0 then 0 else 1) + used t

pub used-set-le : (t : Table) (s : ℕ) (e : RegistryEntry) → used (set t s e) ≤ used t + 1
used-set-le [] s e = omega arith
used-set-le (x ∷ t) zero e = ground arith
used-set-le (x ∷ t) (suc s) e = ground (arith, used-set-le t s e)

-- A table with fewer ids than slots has an empty slot.
pub empty_slot : (t : Table) → used t < length t → (s : ℕ) × (s < length t) × (id_at t s ≡ 0)
empty_slot [] h = absurd (omega arith)
empty_slot (x ∷ t) h = elim (ℕ_discrete x.id 0) [
  | yes z ↦ (0, omega arith, z)
  | no nz ↦ let (s, lt, e) = empty_slot t (ground arith) in (suc s, omega arith, e)
]

pub used-le-length : (t : Table) → used t ≤ length t
used-le-length [] = omega arith
used-le-length (x ∷ t) = ground (arith, used-le-length t)

pub no_empty_slot : (t : Table) (s : ℕ) → length t ≤ used t → s < length t → id_at t s ≢ 0
no_empty_slot [] s h lt z = absurd (omega arith)
no_empty_slot (x ∷ t) zero h lt z = ground (arith, used-le-length t)
no_empty_slot (x ∷ t) (suc s) h lt z = ground (arith, used-le-length t, no_empty_slot t s)

-- The probe of any id passes over every slot of the table.
pub offset_of :
    (h s : ℕ) → s < registry_capacity → (m : ℕ) × (m < registry_capacity) × (slot_at h m ≡ s)
offset_of h s lt =
    ((s + registry_capacity - h % registry_capacity) % registry_capacity, omega arith, omega arith)

pub HasRoom-of_used :
    (t : Table) (id : ℕ) → length t ≡ registry_capacity → used t < registry_capacity → HasRoom t id
HasRoom-of_used t id full h =
    elim (Option-cases (probe registry_capacity 0 t (registry_hash id) id)) [
      | inr r ↦ r
      | inl e ↦
          let (s, lt, z) = empty_slot t (omega (arith, full)) in
          let (m, lm, at) = offset_of (registry_hash id) s (omega (arith, full)) in
          absurd (
            (probe-none registry_capacity 0 t (registry_hash id) id m e (omega arith) lm).0
              (ap (id_at t) at ∙ z))
    ]

pub used-insert-le :
    (t : Table) (id : ℕ) (ptr : Option ℕ) → used (registry_insert t id ptr) ≤ used t + 1
used-insert-le t id ptr = elim (Option-cases (probe registry_capacity 0 t (registry_hash id) id)) [
  | inl e ↦ omega (arith, ap used (insert-full t id ptr e))
  | inr (k, e) ↦ omega (
    arith,
    ap used (insert-set t id k ptr e),
    used-set-le t (slot_at (registry_hash id) k) (record { id = id; ptr = ptr }),
  )
]

used-set_same :
    (t : Table) (s : ℕ) (e : RegistryEntry) → e.id ≢ 0 → id_at t s ≢ 0 → used (set t s e) ≡ used t
used-set_same [] s e a b = refl
used-set_same (x ∷ t) zero e a b = ground arith
used-set_same (x ∷ t) (suc s) e a b = ground (arith, used-set_same t s e a b)

-- A removal frees no slot.
pub used-remove : (t : Table) (id : ℕ) → IsChained t → id ≢ 0 → used (registry_remove t id) ≡ used t
used-remove t id c nz = elim (remove-Removed t id c nz) [
  | inl (e, _) ↦ ap used e
  | inr (k, lt, h, e) ↦
      ap used e
      ∙ used-set_same t (slot_at (registry_hash id) k) (record { id = id; ptr = none }) nz
          (λ z. nz (sym h ∙ z))
]

-- Once every slot has held an id, live or removed, the insertion of an id that the table does not
-- hold changes nothing, and the id is not found afterwards.
pub insert_lost :
    (t : Table) (id : ℕ) (ptr : Option ℕ)
    → length t ≡ registry_capacity
    → used t ≡ registry_capacity
    → ((m : ℕ) → m < registry_capacity → ¬ Holds t id m)
    → (registry_insert t id ptr ≡ t) × (registry_find (registry_insert t id ptr) id ≡ none)
insert_lost t id ptr full all a = (stays, ap (λ u. registry_find u id) stays ∙ find_absent t id a)
  where
    probe_stuck : probe registry_capacity 0 t (registry_hash id) id ≡ none
    probe_stuck = elim (Option-cases (probe registry_capacity 0 t (registry_hash id) id)) [
      | inl e ↦ e
      | inr (k, e) ↦ absurd (stopped k (probe-some registry_capacity 0 t (registry_hash id) id k e))
    ]
      where
        stopped : (k : ℕ) → (0 ≤ k) × (k < registry_capacity) × Stops t (registry_hash id) id k → ⊥
        stopped k (_, lt, inl z) =
            no_empty_slot t (slot_at (registry_hash id) k) (omega (arith, full, all))
              (omega (arith, full)) z
        stopped k (_, lt, inr h) = a k lt h

    stays : registry_insert t id ptr ≡ t
    stays = insert-full t id ptr probe_stuck
