-- ===== src/Evl/Registry/Refine.antt =====
-- A history of registrations and removals, against a map from ids to pointers.
use core_ra_t.Base.{
  ℕ, suc, ◌+◌, ◌≤◌, ◌≡◌, refl, sym, ap, ◌∙◌, ◌≢◌, Option, none, List, [], ◌∷◌, arith, ℕ_discrete,
  length-replicate, get_or-replicate, ◌==◌, if◌then◌else◌,
}
use core_ra_t.Evl.Registry.{
  Table, empty_entry, registry_capacity, registry_hash, registry_table, registry_insert,
  registry_remove, registry_find, slot_at, id_at,
}
use core_ra_t.Evl.Registry.Map.{IsChained, find_absent, find-zero}
use core_ra_t.Evl.Registry.Update.{registry_insert-IsChained, find-insert}
use core_ra_t.Evl.Registry.Remove.{registry_remove-IsChained, find-remove}
use core_ra_t.Evl.Registry.Room.{used, HasRoom-of_used, used-insert-le, used-remove}

pub data Op : Type 0 where
  registers : ℕ → Option ℕ → Op
  removes : ℕ → Op

pub run : Table → List Op → Table
run t [] = t
run t (registers id ptr ∷ ops) = run (registry_insert t id ptr) ops
run t (removes id ∷ ops) = run (registry_remove t id) ops

-- The same history over a function from ids to pointers.
abbrev pub map_run : (ℕ → Option ℕ) → List Op → ℕ → Option ℕ
map_run f [] = f
map_run f (registers id ptr ∷ ops) = map_run (λ j. if j == id then ptr else f j) ops
map_run f (removes id ∷ ops) = map_run (λ j. if j == id then none else f j) ops

abbrev pub registrations : List Op → ℕ
registrations [] = 0
registrations (registers id ptr ∷ ops) = suc (registrations ops)
registrations (removes id ∷ ops) = registrations ops

abbrev pub NonZero : List Op → Type 0
NonZero [] = Unit {0}
NonZero (registers id ptr ∷ ops) = (id ≢ 0) × NonZero ops
NonZero (removes id ∷ ops) = (id ≢ 0) × NonZero ops

run-map_run :
    (t : Table) (ops : List Op) (f : ℕ → Option ℕ)
    → IsChained t
    → NonZero ops
    → used t + registrations ops ≤ registry_capacity
    → ((j : ℕ) → registry_find t j ≡ f j)
    → (j : ℕ) → registry_find (run t ops) j ≡ map_run f ops j
unfolding run
run-map_run t [] f c nz room h j = h j
run-map_run t (registers id ptr ∷ ops) f c nz room h j =
    run-map_run (registry_insert t id ptr) ops (λ i. if i == id then ptr else f i)
      (registry_insert-IsChained t id ptr c nz.0) nz.1 (omega (arith, used-insert-le t id ptr))
      (λ i.
        find-insert t id ptr i c nz.0 (HasRoom-of_used t id c.full_size (omega arith))
        ∙ ap (λ r. if i == id then ptr else r) (h i))
      j
run-map_run t (removes id ∷ ops) f c nz room h j =
    run-map_run (registry_remove t id) ops (λ i. if i == id then none else f i)
      (registry_remove-IsChained t id c nz.0) nz.1 (omega (arith, used-remove t id c nz.0))
      (λ i. find-remove t id i c nz.0 ∙ ap (λ r. if i == id then none else r) (h i)) j

pub id_at-registry_table : (s : ℕ) → id_at registry_table s ≡ 0
unfolding registry_table
id_at-registry_table s = ap (λ e. e.id) (get_or-replicate registry_capacity s empty_entry)

pub registry_table-IsChained : IsChained registry_table
unfolding registry_table
registry_table-IsChained = record {
  full_size = length-replicate registry_capacity empty_entry;
  chain = λ id m n nz lt nm h.
      absurd (nz (sym h ∙ id_at-registry_table (slot_at (registry_hash id) m)));
}

pub used-registry_table : used registry_table ≡ 0
unfolding registry_table
used-registry_table = refl

pub find-registry_table : (j : ℕ) → registry_find registry_table j ≡ none
find-registry_table j = elim (ℕ_discrete j 0) [
  | yes z ↦ ap (registry_find registry_table) z ∙ find-zero registry_table
  | no nz ↦
      find_absent registry_table j
        (λ m lt h. nz (sym h ∙ id_at-registry_table (slot_at (registry_hash j) m)))
]

-- Over any history of registrations and removals of non-zero ids from the empty table, with at most
-- as many registrations as the table has slots, a lookup answers as a map with the same history.
pub run_refines :
    (ops : List Op) (j : ℕ)
    → NonZero ops
    → registrations ops ≤ registry_capacity
    → registry_find (run registry_table ops) j ≡ map_run (λ _. none) ops j
run_refines ops j nz h =
    run-map_run registry_table ops (λ _. none) registry_table-IsChained nz
      (omega (arith, used-registry_table)) find-registry_table j
