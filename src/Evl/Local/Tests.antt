-- ===== src/Evl/Local/Tests.antt =====
-- A run of the local send of include/corerat/ipc/evl/evl_backend.hpp in a concrete process.
use core_ra_t.Base.{ap, true, ℕ, ◌≡◌, refl, some, [], ◌∷◌, arith, get_or-replicate}
use core_ra_t.Base.Int.{pos}
use core_ra_t.Evl.Registry.{registry_table}
use core_ra_t.Evl.Registry.Room.{HasRoom-of_used}
use core_ra_t.Evl.Registry.Refine.{registry_table-IsChained, used-registry_table}
use core_ra_t.Evl.Ring.{Ring, SlotMeta, free_meta, allocate_ring, taken, take_highest}
use core_ra_t.Evl.Ring.Valid.{allocate_ring-IsValid}
use core_ra_t.Tims.Mailbox.{success}
use core_ra_t.Evl.Local.{EvlMailbox, Process, mailbox_at, send_local}
use core_ra_t.Evl.Local.Delivery.{registered, send_local-take}

abbrev mailbox : ℕ → EvlMailbox
mailbox id = record {
  mailbox_id = id;
  created = true;
  max_msg_size = 16;
  messages_sent = 0;
  ring = allocate_ring 4 16;
}

abbrev two_mailboxes : Process
two_mailboxes = record { table = registry_table; mailboxes = mailbox 7 ∷ mailbox 9 ∷ [] }

send_local-take_example :
    (q : Process) × (w : Ring) × (send_local
        (registered two_mailboxes 0)
        1
        (some (1 ∷ 2 ∷ []))
        7
        (pos 5)
      ≡ some (success, q))
    × (take_highest (mailbox_at q 0).ring 16
        ≡ taken (record { priority = pos 5; in_use = true; src = 9; size = 2 }) (1 ∷ 2 ∷ []) w)
unfolding allocate_ring
send_local-take_example =
    send_local-take two_mailboxes 1 0 (1 ∷ 2 ∷ []) (pos 5) 16 registry_table-IsChained
      (HasRoom-of_used registry_table 7 registry_table-IsChained.full_size
        (omega (arith, used-registry_table)))
      (omega arith) (omega arith)
      (
        refl,
        (λ e. omega (arith, e)),
        allocate_ring-IsValid 4 16,
        (λ d lt. ap (λ (m : SlotMeta). m.in_use) (get_or-replicate 4 d free_meta)),
        omega arith,
      )
      (omega arith) (omega arith) (omega arith) (omega arith) refl
