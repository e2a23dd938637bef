-- ===== src/Evl/Local/Delivery.antt =====
-- From the registration of a mailbox to the receipt of what another mailbox of the process sends.
use core_ra_t.Base.{
  ℕ, ◌<◌, ◌≤◌, ◌≡◌, ◌≢◌, sym, ap, ◌∙◌, true, some, List, arith, get_or-set_self, get_or-set_ne,
  length-set, length, ℕ_discrete,
}
use core_ra_t.Base.Int.{ℤ, ltb_ℤ}
use core_ra_t.Evl.Registry.{registry_insert}
use core_ra_t.Evl.Registry.Map.{IsChained}
use core_ra_t.Evl.Registry.Update.{HasRoom, find-insert}
use core_ra_t.Evl.Ring.{Ring, int8_min, taken, take_highest}
use core_ra_t.Evl.Ring.Valid.{IsValid}
use core_ra_t.Evl.Ring.Take.{NoneInUse}
use core_ra_t.Evl.Ring.RoundTrip.{post-take}
use core_ra_t.Tims.Mailbox.{success}
use core_ra_t.Evl.Local.{
  EvlMailbox, Process, no_mailbox, mailbox_at, set_mailbox, count_sent, send_local,
}

-- The registration of the mailbox at a position under its id.
abbrev pub registered : Process → ℕ → Process
registered s p = record s { table = registry_insert s.table (mailbox_at s p).mailbox_id (some p) }

-- A mailbox with a well-formed ring of at least one slot and no message in it.
abbrev pub IsIdle : EvlMailbox → Type 0
IsIdle b =
    (b.created ≡ true)
    × (b.mailbox_id ≢ 0)
    × IsValid b.ring
    × NoneInUse b.ring
    × (0 < b.ring.capacity)

-- What the counter of a sent message leaves: the rings.
ring-count_sent :
    (s : Process) (self p : ℕ)
    → self < length s.mailboxes
    → (mailbox_at (count_sent s self) p).ring ≡ (mailbox_at s p).ring
ring-count_sent s self p lt = elim (ℕ_discrete self p) [
  | yes e ↦
      ap (λ k. (mailbox_at (count_sent s self) k).ring) (sym e)
      ∙ ap (λ (b : EvlMailbox). b.ring) (get_or-set_self s.mailboxes self _ no_mailbox lt)
      ∙ ap (λ k. (mailbox_at s k).ring) e
  | no ne ↦ ap (λ (b : EvlMailbox). b.ring) (get_or-set_ne s.mailboxes self p _ no_mailbox ne)
]

-- Once an idle mailbox has registered, with room for its id in a chained table: what another mailbox of
-- the process, or itself, sends to its id, of at least one byte, not larger than the sender's maximum
-- and the receiver's slots, and of a priority above -128, is sent; and the receiver then takes exactly
-- its bytes and priority, with the sender's id.
pub send_local-take :
    (s : Process) (self p : ℕ) (bytes : List ℕ) (priority : ℤ) (n : ℕ)
    → IsChained s.table
    → HasRoom s.table (mailbox_at s p).mailbox_id
    → p < length s.mailboxes
    → self < length s.mailboxes
    → IsIdle (mailbox_at s p)
    → 0 < length bytes
    → length bytes ≤ (mailbox_at s self).max_msg_size
    → length bytes ≤ (mailbox_at s p).ring.slot_size
    → length bytes ≤ n
    → ltb_ℤ int8_min priority ≡ true
    → (q : Process) × (w : Ring) × (send_local
          (registered s p)
          self
          (some bytes)
          (mailbox_at s p).mailbox_id
          priority
        ≡ some (success, q))
      × (take_highest (mailbox_at q p).ring n
          ≡ taken
              (record {
                priority = priority;
                in_use = true;
                src = (mailbox_at s self).mailbox_id;
                size = length bytes;
              })
              bytes
              w)
unfolding send_local
send_local-take s self p bytes priority n chained room lt here (made, nz, valid, free, some_slot)
      pos_len fits_sender fits_slot fits_buffer above =
    let (u, w, posted, took, _, _) =
      post-take (mailbox_at s p).ring bytes (mailbox_at s self).mailbox_id valid free some_slot
        fits_slot priority n above fits_buffer in
    let filled : Process = set_mailbox (registered s p) p (record (mailbox_at s p) { ring = u }) in
    let kept : (mailbox_at (count_sent filled self) p).ring ≡ u =
      ring-count_sent filled self p
        (omega (arith, here, length-set s.mailboxes p (record (mailbox_at s p) { ring = u })))
      ∙ ap (λ (b : EvlMailbox). b.ring)
          (get_or-set_self s.mailboxes p (record (mailbox_at s p) { ring = u }) no_mailbox lt) in
    (
      count_sent filled self,
      w,
      ground (
        arith,
        made,
        pos_len,
        fits_sender,
        posted,
        find-insert s.table (mailbox_at s p).mailbox_id (some p) (mailbox_at s p).mailbox_id chained
            nz room,
      ),
      ap (λ r. take_highest r n) kept ∙ took,
    )
