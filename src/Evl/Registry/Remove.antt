-- ===== src/Evl/Registry/Remove.antt =====
-- A removal leaves a tombstone: the ids of the table stay, and the pointer goes.
use core_ra_t.Base.{
  ℕ, ◌<◌, ◌≡◌, sym, subst, ap, ◌∙◌, ◌≢◌, ◌⊎◌, inl, inr, none, arith, set, length, length-set, ◌==◌,
  ℕ_discrete, if◌then◌else◌, Option-cases,
}
use core_ra_t.Evl.Registry.{
  Table, registry_capacity, registry_hash, registry_remove, registry_find, slot_at, id_at, ptr_at,
}
use core_ra_t.Evl.Registry.Probe.{probe, probe-some, probe_intro, remove_loop-probe}
use core_ra_t.Evl.Registry.Map.{
  IsChained, Holds, id_at-set, ptr_at-set, find_held, find_absent, held_or_absent, find-zero,
}

-- What a removal does to the table.
abbrev pub Removed : Table → ℕ → Table → Type 0
Removed t id u =
    ((u ≡ t) × ((m : ℕ) → m < registry_capacity → ¬ Holds t id m))
    ⊎ ((k : ℕ) × (k < registry_capacity)
        × Holds t id k
        × (u ≡ set t (slot_at (registry_hash id) k) (record { id = id; ptr = none })))

pub remove-Removed :
    (t : Table) (id : ℕ) → IsChained t → id ≢ 0 → Removed t id (registry_remove t id)
unfolding registry_remove
remove-Removed t id c nz = elim (held_or_absent t id c nz) [
  | inl (m, lt, h) ↦ inr (
    m,
    lt,
    h,
    ground (
      arith,
      remove_loop-probe registry_capacity 0 t (registry_hash id) id,
      probe_intro registry_capacity 0 t (registry_hash id) id m (omega arith) lt (inr h)
          (λ n a b. c.chain id m n nz lt b h),
      h,
    ),
  )
  | inr a ↦ inl (
    elim (Option-cases (probe registry_capacity 0 t (registry_hash id) id)) [
      | inl e ↦ ground (arith, remove_loop-probe registry_capacity 0 t (registry_hash id) id, e)
      | inr (k, e) ↦ ground (
        arith,
        remove_loop-probe registry_capacity 0 t (registry_hash id) id,
        e,
        a k,
        probe-some registry_capacity 0 t (registry_hash id) id k e,
      )
    ],
    a,
  )
]

module _ (t : Table) (id k : ℕ) (chained : IsChained t) (nz : id ≢ 0) (lt : k < registry_capacity)
    (held : Holds t id k) where
  target : ℕ
  target = slot_at (registry_hash id) k

  cleared : Table
  cleared = set t target (record { id = id; ptr = none })

  inside : target < length t
  unfolding target
  inside = omega (arith, chained.full_size)

  id_at-cleared : (x : ℕ) → id_at cleared x ≡ id_at t x
  unfolding cleared target
  id_at-cleared x = elim (ℕ_discrete x target) [
    | yes e ↦ id_at-set t target _ inside x ∙ ground (arith, held, ap (id_at t) e)
    | no ne ↦ id_at-set t target _ inside x ∙ ground arith
  ]

  ptr_at-cleared : (x : ℕ) → ptr_at cleared x ≡ (if x == target then none else ptr_at t x)
  unfolding cleared
  ptr_at-cleared x = ptr_at-set t target (record { id = id; ptr = none }) inside x

  cleared-IsChained : IsChained cleared
  unfolding cleared
  cleared-IsChained = record {
    full_size = length-set t target _ ∙ chained.full_size;
    chain = λ j m n jz lm nm h. ground (
      arith,
      id_at-cleared (slot_at (registry_hash j) m),
      id_at-cleared (slot_at (registry_hash j) n),
      chained.chain j m n jz lm nm,
    );
  }

  find_cleared : registry_find cleared id ≡ none
  unfolding target
  find_cleared =
      find_held cleared id k cleared-IsChained nz lt (id_at-cleared target ∙ held)
      ∙ ground (arith, ptr_at-cleared target)

  find_kept : (j : ℕ) → j ≢ id → registry_find cleared j ≡ registry_find t j
  unfolding target
  find_kept j ne = elim (ℕ_discrete j 0) [
    | yes z ↦
        subst (λ x. registry_find cleared x ≡ registry_find t x) (sym z)
          (find-zero cleared ∙ sym (find-zero t))
    | no nz' ↦ elim (held_or_absent t j chained nz') [
      | inl (m, lm, h) ↦
          find_held cleared j m cleared-IsChained nz' lm
            (id_at-cleared (slot_at (registry_hash j) m) ∙ h)
          ∙ ground (arith, ptr_at-cleared (slot_at (registry_hash j) m), held, h)
          ∙ sym (find_held t j m chained nz' lm h)
      | inr a ↦
          find_absent cleared j
            (λ m lm h. a m lm (sym (id_at-cleared (slot_at (registry_hash j) m)) ∙ h))
          ∙ sym (find_absent t j a)
    ]
  ]

-- Removing an id keeps the table chained.
pub registry_remove-IsChained :
    (t : Table) (id : ℕ) → IsChained t → id ≢ 0 → IsChained (registry_remove t id)
unfolding cleared target
registry_remove-IsChained t id c nz = elim (remove-Removed t id c nz) [
  | inl (e, _) ↦ subst IsChained (sym e) c
  | inr (k, lt, h, e) ↦ subst IsChained (sym e) (cleared-IsChained t id k c nz lt h)
]

-- After a removal in a chained table the id is not found, and every other id as before.
pub find-remove :
    (t : Table) (id j : ℕ)
    → IsChained t
    → id ≢ 0
    → registry_find (registry_remove t id) j ≡ (if j == id then none else registry_find t j)
unfolding cleared target
find-remove t id j c nz = elim (remove-Removed t id c nz) [
  | inl (e, a) ↦ ap (λ u. registry_find u j) e ∙ absent_case a
  | inr (k, lt, h, e) ↦ ap (λ u. registry_find u j) e ∙ (elim (ℕ_discrete j id) [
    | yes same ↦ ground (
      arith,
      find_cleared t id k c nz lt h,
      ap (registry_find (set t (slot_at (registry_hash id) k) (record { id = id; ptr = none })))
          same,
    )
    | no other ↦ ground (arith, find_kept t id k c nz lt h j other)
  ])
]
  where
    absent_case :
        ((m : ℕ) → m < registry_capacity → ¬ Holds t id m)
        → registry_find t j ≡ (if j == id then none else registry_find t j)
    absent_case a = elim (ℕ_discrete j id) [
      | yes same ↦ ground (arith, find_absent t id a, ap (registry_find t) same)
      | no other ↦ ground arith
    ]
