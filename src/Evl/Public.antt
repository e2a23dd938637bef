-- ===== src/Evl/Public.antt =====
-- include/corerat/ipc/evl/evl_backend.hpp: send_raw of a mailbox in the public mode: into the ring of a
-- mailbox of the process, into the mapped ring of another process, or to the router's device.
-- `mapped` is the ring that each remote handle maps, at the handle's index. What the system answers is
-- an argument: the ring of a mailbox that can be opened, and whether the device takes a message.
use core_ra_t.Base.{
  ℕ, ◌≡◌, arith, Bool, true, false, ◌&&◌, ◌||◌, Option, none, some, List, [], ◌∷◌, ◌++◌, get_or,
  set, length, ltb, ◌==◌, if◌then◌else◌, Option-cases, inl, inr,
}
use core_ra_t.Base.Int.{ℤ}
use core_ra_t.Tims.Mailbox.{TimsResult, success, error_invalid_msg, error_send}
use core_ra_t.Evl.Registry.{registry_find}
use core_ra_t.Evl.Ring.{Ring, post, allocate_ring}
use core_ra_t.Evl.Ring.Remote.{post_to_remote}
use core_ra_t.Evl.Remote.{
  RemoteHandles, no_handle, handle, out_of_range, hit_loop, get_or_open_remote,
}
use core_ra_t.Evl.Local.{Process, mailbox_at, set_mailbox, count_sent, send_local}

pub record PublicMailbox : Type 0 where
  pub process : Process
  pub self : ℕ
  pub remote_handles : RemoteHandles
  pub mapped : List Ring
  -- what went to the router's device, oldest first
  pub bridged : List (List ℕ)

-- The mailbox of the process that a message goes to, if there is one.
abbrev pub local_target : Process → ℕ → Option ℕ
local_target s dest = elim (registry_find s.table dest) [
  | none ↦ none
  | some p ↦
      if (mailbox_at s p).mailbox_id == dest && (mailbox_at s p).created then some p else none
]

-- The result and the count, once it is known whether the message was posted.
abbrev pub finish : Bool → PublicMailbox → TimsResult × PublicMailbox
finish ok m =
    if ok then (success, record m { process = count_sent m.process m.self }) else (error_send, m)

abbrev pub empty_ring : Ring
empty_ring = allocate_ring 0 0

-- A ring that is opened is mapped at its handle; a cached handle keeps its mapping.
abbrev pub map_ring : PublicMailbox → ℕ → ℕ → Option Ring → List Ring
map_ring m dest i opened = elim (hit_loop m.remote_handles.handles dest 0) [
  | some j ↦ m.mapped
  | none ↦ elim opened [ none ↦ m.mapped | some r ↦ set m.mapped i r ]
]

abbrev pub is_some : Option Ring → Bool
is_some none = false
is_some (some r) = true

-- Without a handle the message goes to the device, if there is one, `device`, and it takes it whole.
unfoldable pub send_remote :
    PublicMailbox → List ℕ → ℕ → ℤ → Option Ring → Bool → Option (TimsResult × PublicMailbox)
send_remote m bytes dest priority opened device =
    let (found, handles) = get_or_open_remote m.remote_handles dest (is_some opened) in
    let m' = record m { remote_handles = handles } in
    elim found [
      | out_of_range ↦ none
      | no_handle ↦
          if device
          then some (finish true (record m' { bridged = m.bridged ++ (bytes ∷ []) }))
          else some (finish false m')
      | handle i ↦
          let mapped = map_ring m dest i opened in
          elim (post_to_remote (get_or mapped i empty_ring) bytes priority
            (mailbox_at m.process m.self).mailbox_id) [
              | none ↦ none
              | some (ok, ring) ↦ some (finish ok (record m' { mapped = set mapped i ring }))
            ]
    ]

unfoldable pub send_public :
    PublicMailbox
    → Option (List ℕ)
    → ℕ
    → ℤ
    → Option Ring
    → Bool
    → Option (TimsResult × PublicMailbox)
send_public m message dest priority opened device = elim message [
  | none ↦ some (error_invalid_msg, m)
  | some bytes ↦
      if length bytes == 0 || ltb (mailbox_at m.process m.self).max_msg_size (length bytes)
      then some (error_invalid_msg, m)
      else (elim (local_target m.process dest) [
        | none ↦ send_remote m bytes dest priority opened device
        | some p ↦
            elim (post (mailbox_at m.process p).ring bytes priority
              (mailbox_at m.process m.self).mailbox_id) [
                | none ↦ none
                | some (ok, ring) ↦ some (
                    finish ok (record m {
                      process =
                          set_mailbox m.process p (record (mailbox_at m.process p) { ring = ring });
                    }))
              ]
      ])
]

-- The same result and process, as a public mailbox has them.
abbrev pub as_public :
    PublicMailbox → Option (TimsResult × Process) → Option (TimsResult × PublicMailbox)
as_public m none = none
as_public m (some (r, s)) = some (r, record m { process = s })

-- To a mailbox that the table of the process finds, a public mailbox sends exactly as a local one does,
-- whatever could be opened and whatever device there is.
pub send_public-send_local :
    (m : PublicMailbox) (bytes : List ℕ) (dest p : ℕ) (priority : ℤ) (opened : Option Ring)
    (device : Bool)
    → local_target m.process dest ≡ some p
    → send_public m (some bytes) dest priority opened device
      ≡ as_public m (send_local m.process m.self (some bytes) dest priority)
unfolding send_public send_local
send_public-send_local m bytes dest p priority opened device t =
    elim (Option-cases (registry_find m.process.table dest)) [
      | inl n ↦ absurd (ground (arith, n, t))
      | inr (q, e) ↦
          elim (Option-cases (
            post (mailbox_at m.process q).ring bytes priority
              (mailbox_at m.process m.self).mailbox_id)) [
                | inl n ↦ ground (arith, e, n, t)
                | inr ((ok, ring), n) ↦ ground (arith, e, n, t)
              ]
    ]
