-- ===== src/Evl/Registry/Update.antt =====
-- Insertions and removals keep every id reachable, and act on lookups as on a map.
use core_ra_t.Base.{
  ℕ, ◌<◌, ◌≤◌, ◌≡◌, sym, subst, ◌∙◌, ◌≢◌, inl, inr, Option, none, some, arith, set, length,
  length-set, ◌==◌, ℕ_discrete, if◌then◌else◌, Option-cases,
}
use core_ra_t.Evl.Registry.{
  Table, registry_capacity, registry_hash, registry_insert, registry_find, slot_at, id_at, ptr_at,
}
use core_ra_t.Evl.Registry.Probe.{
  probe, probe-some, probe-some-Passes, insert_loop-probe, Passes, Stops,
}
use core_ra_t.Evl.Registry.Map.{
  IsChained, Holds, lt_cases, slot_inj, id_at-set, ptr_at-set, find_held, find_absent,
  held_or_absent, find-zero,
}

-- The probe for an id ends at a slot: it is in the table, or a slot of its probe is empty.
abbrev pub HasRoom : Table → ℕ → Type 0
HasRoom t id = (k : ℕ) × (probe registry_capacity 0 t (registry_hash id) id ≡ some k)

pub insert-set :
    (t : Table) (id k : ℕ) (ptr : Option ℕ)
    → probe registry_capacity 0 t (registry_hash id) id ≡ some k
    → registry_insert t id ptr
      ≡ set t (slot_at (registry_hash id) k) (record { id = id; ptr = ptr })
unfolding registry_insert
insert-set t id k ptr e =
    ground (arith, insert_loop-probe registry_capacity 0 t (registry_hash id) id ptr, e)

pub insert-full :
    (t : Table) (id : ℕ) (ptr : Option ℕ)
    → probe registry_capacity 0 t (registry_hash id) id ≡ none
    → registry_insert t id ptr ≡ t
unfolding registry_insert
insert-full t id ptr e =
    ground (arith, insert_loop-probe registry_capacity 0 t (registry_hash id) id ptr, e)

module _ (t : Table) (id k : ℕ) (ptr : Option ℕ) (chained : IsChained t) (nz : id ≢ 0)
    (found : probe registry_capacity 0 t (registry_hash id) id ≡ some k) where
  target : ℕ
  target = slot_at (registry_hash id) k

  written : Table
  written = set t target (record { id = id; ptr = ptr })

  stop_lem : (0 ≤ k) × (k < registry_capacity) × Stops t (registry_hash id) id k
  stop_lem = probe-some registry_capacity 0 t (registry_hash id) id k found

  inside : target < length t
  unfolding target
  inside = omega (arith, chained.full_size)

  id_at-written : (x : ℕ) → id_at written x ≡ (if x == target then id else id_at t x)
  unfolding written
  id_at-written x = id_at-set t target (record { id = id; ptr = ptr }) inside x

  ptr_at-written : (x : ℕ) → ptr_at written x ≡ (if x == target then ptr else ptr_at t x)
  unfolding written
  ptr_at-written x = ptr_at-set t target (record { id = id; ptr = ptr }) inside x

  Holds-self : Holds written id k
  unfolding target
  Holds-self = ground (arith, id_at-written target)

  -- A slot that holds another id was not written.
  Holds-other : (j m : ℕ) → j ≢ 0 → j ≢ id → Holds t j m → Holds written j m
  unfolding target
  Holds-other j m jz ne h = ground (arith, id_at-written (slot_at (registry_hash j) m), stop_lem)

  Holds-back : (j m : ℕ) → j ≢ id → Holds written j m → Holds t j m
  unfolding target
  Holds-back j m ne h = ground (arith, id_at-written (slot_at (registry_hash j) m))

  ptr_other :
      (j m : ℕ)
      → j ≢ 0
      → j ≢ id
      → Holds t j m
      → ptr_at written (slot_at (registry_hash j) m) ≡ ptr_at t (slot_at (registry_hash j) m)
  unfolding target
  ptr_other j m jz ne h = ground (arith, ptr_at-written (slot_at (registry_hash j) m), stop_lem)

  -- The id stands at the one slot that was written.
  held_at_stop : (m : ℕ) → m < registry_capacity → Holds written id m → m ≡ k
  unfolding target
  held_at_stop m lt h = elim (lt_cases m k) [
    | inl before ↦ ground (
      arith,
      id_at-written (slot_at (registry_hash id) m),
      slot_inj (registry_hash id) m k,
      probe-some-Passes registry_capacity 0 t (registry_hash id) id k m found (omega arith) before,
      stop_lem,
    )
    | inr (inl same) ↦ same
    | inr (inr after) ↦ ground (
      arith,
      id_at-written (slot_at (registry_hash id) m),
      slot_inj (registry_hash id) m k,
      chained.chain id m k nz lt after,
      stop_lem,
    )
  ]

  chain_self :
      (m n : ℕ)
      → m < registry_capacity
      → n < m
      → Holds written id m
      → Passes written (registry_hash id) id n
  unfolding target
  chain_self m n lt nm h = ground (
    arith,
    held_at_stop m lt h,
    id_at-written (slot_at (registry_hash id) n),
    slot_inj (registry_hash id) n k,
    probe-some-Passes registry_capacity 0 t (registry_hash id) id k n found (omega arith),
    stop_lem,
  )

  chain_other :
      (j m n : ℕ)
      → j ≢ 0
      → j ≢ id
      → m < registry_capacity
      → n < m
      → Holds written j m
      → Passes written (registry_hash j) j n
  unfolding target
  chain_other j m n jz ne lt nm h = ground (
    arith,
    chained.chain j m n jz lt nm (Holds-back j m ne h),
    id_at-written (slot_at (registry_hash j) n),
  )

  written_chain :
      (j m n : ℕ)
      → j ≢ 0
      → m < registry_capacity
      → n < m
      → Holds written j m
      → Passes written (registry_hash j) j n
  written_chain j m n jz lt nm h = elim (ℕ_discrete j id) [
    | yes e ↦
        subst (λ x. Passes written (registry_hash x) x n) (sym e)
          (chain_self m n lt nm (subst (λ x. Holds written x m) e h))
    | no ne ↦ chain_other j m n jz ne lt nm h
  ]

  written-IsChained : IsChained written
  unfolding written
  written-IsChained = record {
    full_size = length-set t target _ ∙ chained.full_size;
    chain = written_chain;
  }

  find_self : registry_find written id ≡ ptr
  unfolding target
  find_self =
      find_held written id k written-IsChained nz stop_lem.1 Holds-self
      ∙ ground (arith, ptr_at-written target)

  find_other : (j : ℕ) → j ≢ id → registry_find written j ≡ registry_find t j
  find_other j ne = elim (ℕ_discrete j 0) [
    | yes z ↦
        subst (λ x. registry_find written x ≡ registry_find t x) (sym z)
          (find-zero written ∙ sym (find-zero t))
    | no nz' ↦ elim (held_or_absent t j chained nz') [
      | inl (m, lt, h) ↦
          find_held written j m written-IsChained nz' lt (Holds-other j m nz' ne h)
          ∙ ptr_other j m nz' ne h
          ∙ sym (find_held t j m chained nz' lt h)
      | inr a ↦
          find_absent written j (λ m lt h. a m lt (Holds-back j m ne h)) ∙ sym (find_absent t j a)
    ]
  ]

-- Inserting an id keeps the table chained.
pub registry_insert-IsChained :
    (t : Table) (id : ℕ) (ptr : Option ℕ)
    → IsChained t
    → id ≢ 0
    → IsChained (registry_insert t id ptr)
unfolding written target
registry_insert-IsChained t id ptr c nz =
    elim (Option-cases (probe registry_capacity 0 t (registry_hash id) id)) [
      | inl e ↦ subst IsChained (sym (insert-full t id ptr e)) c
      | inr (k, e) ↦
          subst IsChained (sym (insert-set t id k ptr e)) (written-IsChained t id k ptr c nz e)
    ]

-- In a chained table with room for a non-zero id, an insertion makes lookups of that id find the
-- pointer, and leaves the lookups of every other id as they were.
pub find-insert :
    (t : Table) (id : ℕ) (ptr : Option ℕ) (j : ℕ)
    → IsChained t
    → id ≢ 0
    → HasRoom t id
    → registry_find (registry_insert t id ptr) j ≡ (if j == id then ptr else registry_find t j)
unfolding written target
find-insert t id ptr j c nz (k, e) = elim (ℕ_discrete j id) [
  | yes same ↦ ground (arith, insert-set t id k ptr e, find_self t id k ptr c nz e)
  | no other ↦ ground (arith, insert-set t id k ptr e, find_other t id k ptr c nz e j other)
]
