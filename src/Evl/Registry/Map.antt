-- ===== src/Evl/Registry/Map.antt =====
-- The registry as a map: what a lookup finds after an insertion or a removal.
use core_ra_t.Base.{
  ℕ, ◌<◌, ◌≤◌, ◌≡◌, sym, ◌∙◌, ap, ◌≢◌, ◌⊎◌, inl, inr, none, some, arith, set, length,
  get_or-set_self, get_or-set_ne, ◌==◌, ℕ_discrete, dec_lt, if◌then◌else◌, Option-cases,
}
use core_ra_t.Evl.Registry.{
  Table, RegistryEntry, empty_entry, registry_capacity, registry_hash, registry_find, slot_at,
  id_at, ptr_at,
}
use core_ra_t.Evl.Registry.Probe.{
  probe, probe-some, probe-some-Passes, probe-none, probe_intro, find_loop-probe, Passes, Stops,
}

-- The slot at offset `m` of the probe for `id` holds `id`.
abbrev pub Holds : Table → ℕ → ℕ → Type 0
Holds t id m = id_at t (slot_at (registry_hash id) m) ≡ id

pub lt_cases : (m k : ℕ) → (m < k) ⊎ ((m ≡ k) ⊎ (k < m))
lt_cases m k = elim (dec_lt m k) [
  | yes p ↦ inl p
  | no p ↦ elim (ℕ_discrete m k) [ yes e ↦ inr (inl e) | no ne ↦ inr (inr (omega arith)) ]
]

-- Every id is reached by its own probe: no slot before it is empty or holds it too.
pub record IsChained (t : Table) : Type 0 where
  pub full_size : length t ≡ registry_capacity
  pub chain :
      (id m n : ℕ)
      → id ≢ 0
      → m < registry_capacity
      → n < m
      → Holds t id m
      → Passes t (registry_hash id) id n

pub slot_inj :
    (h m n : ℕ) → m < registry_capacity → n < registry_capacity → slot_at h m ≡ slot_at h n → m ≡ n
slot_inj h m n a b e = omega arith

module _ (t : Table) (s : ℕ) (e : RegistryEntry) (inside : s < length t) where
  pub id_at-set : (x : ℕ) → id_at (set t s e) x ≡ (if x == s then e.id else id_at t x)
  id_at-set x = elim (ℕ_discrete s x) [
    | yes p ↦
        ground (
          arith,
          ap (λ r. r.id) (get_or-set_self t s e empty_entry inside),
          ap (id_at (set t s e)) p,
        )
    | no p ↦ ground (arith, ap (λ r. r.id) (get_or-set_ne t s x e empty_entry p))
  ]

  pub ptr_at-set : (x : ℕ) → ptr_at (set t s e) x ≡ (if x == s then e.ptr else ptr_at t x)
  ptr_at-set x = elim (ℕ_discrete s x) [
    | yes p ↦ ground (
      arith,
      ap (λ r. r.ptr) (get_or-set_self t s e empty_entry inside),
      ap (ptr_at (set t s e)) p,
    )
    | no p ↦ ground (arith, ap (λ r. r.ptr) (get_or-set_ne t s x e empty_entry p))
  ]

-- The lookup of an id that some slot of its probe holds.
pub find_held :
    (t : Table) (id m : ℕ)
    → IsChained t
    → id ≢ 0
    → m < registry_capacity
    → Holds t id m
    → registry_find t id ≡ ptr_at t (slot_at (registry_hash id) m)
unfolding registry_find
find_held t id m c nz lt h = ground (
  arith,
  find_loop-probe registry_capacity 0 t (registry_hash id) id,
  probe_intro registry_capacity 0 t (registry_hash id) id m (omega arith) lt (inr h)
      (λ n a b. c.chain id m n nz lt b h),
)

pub find_absent :
    (t : Table) (id : ℕ)
    → ((m : ℕ) → m < registry_capacity → ¬ Holds t id m)
    → registry_find t id ≡ none
unfolding registry_find
find_absent t id a = elim (Option-cases (probe registry_capacity 0 t (registry_hash id) id)) [
  | inl e ↦ ground (arith, find_loop-probe registry_capacity 0 t (registry_hash id) id, e)
  | inr (k, e) ↦ ground (
    arith,
    find_loop-probe registry_capacity 0 t (registry_hash id) id,
    e,
    probe-some registry_capacity 0 t (registry_hash id) id k e,
    a k,
  )
]

-- Id 0 marks an empty slot, so no mailbox is ever found under it.
pub find-zero : (t : Table) → registry_find t 0 ≡ none
unfolding registry_find
find-zero t = elim (Option-cases (probe registry_capacity 0 t (registry_hash 0) 0)) [
  | inl e ↦ ground (arith, find_loop-probe registry_capacity 0 t (registry_hash 0) 0, e)
  | inr (k, e) ↦ ground (
    arith,
    find_loop-probe registry_capacity 0 t (registry_hash 0) 0,
    e,
    probe-some registry_capacity 0 t (registry_hash 0) 0 k e,
  )
]

-- Some slot of its probe holds an id, or none does.
pub held_or_absent :
    (t : Table) (id : ℕ)
    → IsChained t
    → id ≢ 0
    → ((m : ℕ) × (m < registry_capacity) × Holds t id m)
      ⊎ ((m : ℕ) → m < registry_capacity → ¬ Holds t id m)
held_or_absent t id c nz = elim (Option-cases (probe registry_capacity 0 t (registry_hash id) id)) [
  | inl e ↦
      inr (λ m lt h.
        (probe-none registry_capacity 0 t (registry_hash id) id m e (omega arith) lt).1 h)
  | inr (k, e) ↦ stopped k e (probe-some registry_capacity 0 t (registry_hash id) id k e)
]
  where
    stopped :
        (k : ℕ)
        → probe registry_capacity 0 t (registry_hash id) id ≡ some k
        → (0 ≤ k) × (k < registry_capacity) × Stops t (registry_hash id) id k
        → ((m : ℕ) × (m < registry_capacity) × Holds t id m)
          ⊎ ((m : ℕ) → m < registry_capacity → ¬ Holds t id m)
    stopped k e (_, lt, inr h) = inl (k, lt, h)
    stopped k e (_, lt, inl z) = inr (λ m lm h. elim (lt_cases m k) [
      | inl before ↦
          (probe-some-Passes registry_capacity 0 t (registry_hash id) id k m e (omega arith)
              before).1
            h
      | inr (inl same) ↦ nz (sym h ∙ ap (λ x. id_at t (slot_at (registry_hash id) x)) same ∙ z)
      | inr (inr after) ↦ (c.chain id m k nz lm after h).0 z
    ])
