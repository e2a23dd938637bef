-- ===== src/Evl/Registry/Tests.antt =====
-- Runs of the registry of include/corerat/ipc/evl/evl_backend.hpp on concrete tables.
use core_ra_t.Base.{
  ℕ, zero, suc, get_or, ◌<◌, ◌≡◌, refl, ap, none, some, List, [], ◌∷◌, arith, replicate,
  length-replicate,
}
use core_ra_t.Evl.Registry.{
  Table, RegistryEntry, empty_entry, registry_capacity, registry_table, registry_hash,
  registry_insert, registry_find, slot_at,
}
use core_ra_t.Evl.Registry.Room.{used, insert_lost}
use core_ra_t.Evl.Registry.Refine.{Op, registers, removes, run, run_refines}

abbrev history : List Op
history = registers 7 (some 1) ∷ registers 9 (some 2) ∷ removes 7 ∷ []

run_refines_example : registry_find (run registry_table history) 9 ≡ some 2
run_refines_example =
    run_refines history 9
      ((λ e. omega (arith, e)), ((λ e. omega (arith, e)), ((λ e. omega (arith, e)), tt)))
      (omega arith)

-- Every slot is the tombstone of one id.
abbrev worn_entry : RegistryEntry
worn_entry = record { id = 5; ptr = none }

abbrev worn_table : Table
worn_table = replicate registry_capacity worn_entry

used-worn_table : used worn_table ≡ registry_capacity
used-worn_table = refl

get_or-worn : (n i : ℕ) → i < n → get_or (replicate n worn_entry) i empty_entry ≡ worn_entry
get_or-worn zero i lt = absurd (omega arith)
get_or-worn (suc n) zero lt = refl
get_or-worn (suc n) (suc i) lt = get_or-worn n i (omega arith)

insert_lost_example :
    (registry_insert worn_table 6 (some 1) ≡ worn_table)
    × (registry_find (registry_insert worn_table 6 (some 1)) 6 ≡ none)
insert_lost_example =
    insert_lost worn_table 6 (some 1) (length-replicate registry_capacity worn_entry)
      used-worn_table
      (λ m lt h. omega (
        arith,
        h,
        ap (λ (e : RegistryEntry). e.id)
            (get_or-worn registry_capacity (slot_at (registry_hash 6) m) (omega arith)),
      ))
