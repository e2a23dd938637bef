-- ===== src/Mailbox/Moves.antt =====
-- The moves and the destructor of Mailbox of include/corerat/ipc/mailbox.hpp. What a move of the backend
-- leaves behind is a parameter.
use core_ra_t.Base.{◌≡◌, refl, arith, true, false, Bool-cases, inl, inr}
use core_ra_t.Mailbox.Interface.{Backend, IsLifecycle}
use core_ra_t.Mailbox.{Mailbox, stop}
use core_ra_t.Tims.Mailbox.{TimsMailbox}
use core_ra_t.Tims.Mailbox as Tims

module _ {S : Type 0} (b : Backend S) (left_behind : S → S) where
  -- The new mailbox, and what is left of the other.
  unfoldable pub move_construct : Mailbox S → Mailbox S × Mailbox S
  move_construct other =
      (other, record other { backend = left_behind other.backend; running = false })

  -- The mailbox as it is when it takes the other over, the mailbox after, and what is left of the other.
  unfoldable pub move_assign : Mailbox S → Mailbox S → Mailbox S × Mailbox S × Mailbox S
  move_assign self other =
      (stop b self, other, record other { backend = left_behind other.backend; running = false })

  unfoldable pub destroy : Mailbox S → Mailbox S
  destroy m = stop b m

  -- Of two mailboxes, the one that is left of a move does not run, so that its end shuts nothing down; the
  -- one that takes over runs as the other did; and a mailbox that ran when it was assigned to has shut its
  -- backend down first.
  pub move_lem :
      (self other : Mailbox S)
      → IsLifecycle b
      → let (before, after, left) = move_assign self other in
        (destroy left ≡ left)
        × (after ≡ other)
        × (before.running ≡ false)
        × (self.running ≡ true → b.is_initialized before.backend ≡ false)
        × (move_construct other ≡ (after, left))
  unfolding move_assign move_construct destroy stop
  move_lem self other law = elim (Bool-cases self.running) [
    | inl on ↦ (
      ground arith,
      refl,
      ground (arith, on),
      λ h. ground (arith, on, law.shutdown_closed self.backend),
      refl,
    )
    | inr off ↦
        (ground arith, refl, ground (arith, off), λ h. absurd (ground (arith, off, h)), refl)
  ]

-- What a move leaves of the TCP backend.
abbrev pub tims_left_behind : TimsMailbox → TimsMailbox
tims_left_behind m = (Tims.move_construct m).1
