-- ===== src/Evl/Local.antt =====
-- include/corerat/ipc/evl/evl_backend.hpp: send_raw of a mailbox in the local mode, through the table
-- of mailboxes into the ring of another mailbox of the process.
-- The mailboxes of the process are a list, a pointer is a position in it.
pub mod Delivery
mod Tests
use core_ra_t.Base.{
  ℕ, zero, suc, ◌+◌, Bool, true, false, not, ◌&&◌, ◌||◌, Option, none, some, List, [], ◌∷◌, get_or,
  set, length, ltb, ◌==◌, if◌then◌else◌,
}
use core_ra_t.Base.Int.{ℤ}
use core_ra_t.Tims.Mailbox.{TimsResult, success, error_invalid_msg, error_send}
use core_ra_t.Evl.Registry.{Table, registry_find}
use core_ra_t.Evl.Ring.{Ring, post, allocate_ring}

pub record EvlMailbox : Type 0 where
  pub mailbox_id : ℕ
  pub created : Bool
  pub max_msg_size : ℕ
  pub messages_sent : ℕ
  pub ring : Ring

pub record Process : Type 0 where
  pub table : Table
  pub mailboxes : List EvlMailbox

abbrev pub no_mailbox : EvlMailbox
no_mailbox = record {
  mailbox_id = 0;
  created = false;
  max_msg_size = 0;
  messages_sent = 0;
  ring = allocate_ring 0 0;
}

abbrev pub mailbox_at : Process → ℕ → EvlMailbox
mailbox_at s p = get_or s.mailboxes p no_mailbox

abbrev pub set_mailbox : Process → ℕ → EvlMailbox → Process
set_mailbox s p b = record s { mailboxes = set s.mailboxes p b }

-- `messages_sent_.fetch_add(1)`.
abbrev pub count_sent : Process → ℕ → Process
count_sent s self =
    set_mailbox s self
      (record (mailbox_at s self) { messages_sent = (mailbox_at s self).messages_sent + 1 })

-- The mailbox at position `self` sends. `message` is none for nullptr; the result is none where the
-- copy into the ring leaves its memory.
unfoldable pub send_local : Process → ℕ → Option (List ℕ) → ℕ → ℤ → Option (TimsResult × Process)
send_local s self message dest priority = elim message [
  | none ↦ some (error_invalid_msg, s)
  | some bytes ↦
      if length bytes == 0 || ltb (mailbox_at s self).max_msg_size (length bytes)
      then some (error_invalid_msg, s)
      else (elim (registry_find s.table dest) [
        | none ↦ some (error_send, s)
        | some p ↦
            if not ((mailbox_at s p).mailbox_id == dest) || not (mailbox_at s p).created
            then some (error_send, s)
            else (elim (post (mailbox_at s p).ring bytes priority (mailbox_at s self).mailbox_id) [
              | none ↦ none
              | some (ok, ring) ↦
                  let s' = set_mailbox s p (record (mailbox_at s p) { ring = ring }) in
                  if ok then some (success, count_sent s' self) else some (error_send, s')
            ])
      ])
]
