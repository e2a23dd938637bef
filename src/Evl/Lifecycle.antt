-- ===== src/Evl/Lifecycle.antt =====
-- include/corerat/ipc/evl/evl_backend.hpp: initialize and shutdown of a mailbox, and what they hold of
-- the system. What the system answers to each request is an argument.
use core_ra_t.Base.{ℕ, ◌≡◌, arith, Bool, true, false, not, none, some, ◌==◌, if◌then◌else◌}
use core_ra_t.Tims.Mailbox.{TimsResult, success, error_init}
use core_ra_t.Evl.Registry.{Table, registry_insert, registry_remove, registry_find}
use core_ra_t.Evl.Remote.{RemoteHandles, close_all_remotes}

pub data Mode : Type 0 where
  local : Mode
  public : Mode
  network : Mode

-- The ring, the mutex, the event, the cross-buffer, the poll group and the socket, where they are held.
pub record Resources : Type 0 where
  pub ring : Bool
  pub mutex : Bool
  pub event : Bool
  pub device : Bool
  pub poll_group : Bool
  pub socket : Bool

abbrev pub no_resources : Resources
no_resources = record {
  ring = false;
  mutex = false;
  event = false;
  device = false;
  poll_group = false;
  socket = false;
}

-- Whether the system grants each of them.
abbrev pub Answers : Type 0
Answers = Resources

-- `self` is the mailbox's pointer, which is what the table holds.
pub record Node : Type 0 where
  pub mailbox_id : ℕ
  pub self : ℕ
  pub mode : Mode
  pub created : Bool
  pub resources : Resources
  pub table : Table
  pub remote_handles : RemoteHandles

unfoldable pub allocate_ring : Answers → Resources → Bool × Resources
allocate_ring a r = if a.ring then (true, record r { ring = true }) else (false, r)

-- A mutex whose event fails is closed again.
unfoldable pub create_evl_objects : Answers → Resources → Bool × Resources
create_evl_objects a r =
    if not a.mutex
    then (false, r)
    else if not a.event
    then (false, record r { mutex = false })
    else (true, record r { mutex = true; event = true })

-- A cross-buffer without its poll group is closed again.
unfoldable pub create_xbuf : Answers → Resources → Bool × Resources
create_xbuf a r =
    if not a.device
    then (false, r)
    else if not a.poll_group
    then (false, record r { device = false })
    else (true, record r { device = true; poll_group = true })

-- The steps after the ring, and the result.
unfoldable pub initialize_ring : Node → Answers → TimsResult × Node
initialize_ring n a =
    let (ring_ok, r1) = allocate_ring a n.resources in
    let (objects_ok, r2) = create_evl_objects a r1 in
    let (device_ok, r3) = create_xbuf a r2 in
    if not ring_ok
    then (error_init, record n { resources = r1 })
    else if not objects_ok
    then (error_init, record n { resources = r2 })
    else (elim n.mode [
      | local ↦ (
        success,
        record n {
          resources = r2;
          created = true;
          table = registry_insert n.table n.mailbox_id (some n.self);
        },
      )
      | network ↦ (success, record n { resources = r2; created = true })
      | public ↦
          if device_ok
          then (success, record n { resources = r3; created = true })
          else (error_init, record n { resources = r3 })
    ])

unfoldable pub initialize : Node → Answers → TimsResult × Node
initialize n a = if n.created then (success, n) else (elim n.mode [
  | network ↦
      if a.socket
      then (success, record n { created = true; resources = record n.resources { socket = true } })
      else (error_init, n)
  | local ↦ initialize_ring n a
  | public ↦ initialize_ring n a
])

-- Whether the table's entry for the mailbox's id is the mailbox itself.
unfoldable pub is_registered : Node → Bool
is_registered n = elim (registry_find n.table n.mailbox_id) [ none ↦ false | some p ↦ p == n.self ]

unfoldable pub release : Node → Node
release n = record n {
  created = false;
  resources = record n.resources {
    ring = false;
    mutex = false;
    event = false;
    device = false;
    poll_group = false;
  };
  remote_handles = close_all_remotes n.remote_handles;
}

unfoldable pub shutdown : Node → Node
shutdown n = if not n.created then n else (elim n.mode [
  | network ↦ record n { created = false; resources = record n.resources { socket = false } }
  | public ↦ release n
  | local ↦ record (release n) {
    table = if is_registered n then registry_remove n.table n.mailbox_id else n.table;
  }
])

-- A mailbox that holds nothing holds nothing again once it is shut down after an initialization that
-- succeeded, in every mode. A public mailbox whose cross-buffer the system refuses has its ring, its
-- mutex and its event, and no shutdown gives them back.
pub initialize-shutdown :
    (n : Node) (a : Answers)
    → n.created ≡ false
    → n.resources ≡ no_resources
    → ((initialize n a).0 ≡ success
        → ((shutdown (initialize n a).1).created ≡ false)
          × ((shutdown (initialize n a).1).resources ≡ no_resources))
      × (n.mode ≡ public
          → a.ring ≡ true
          → a.mutex ≡ true
          → a.event ≡ true
          → a.device ≡ false
          → ((initialize n a).0 ≡ error_init)
            × ((shutdown (initialize n a).1).resources
                ≡ record no_resources { ring = true; mutex = true; event = true }))
unfolding initialize initialize_ring allocate_ring create_evl_objects create_xbuf shutdown release
initialize-shutdown n a fresh nothing = (
  λ ok. (ground (arith, fresh, nothing, ok), ground (arith, fresh, nothing, ok)),
  λ m r x e d. (
    ground (arith, fresh, nothing, m, r, x, e, d),
    ground (arith, fresh, nothing, m, r, x, e, d),
  ),
)
