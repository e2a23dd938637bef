-- ===== src/Router/Evl/Routes.antt =====
-- MailboxRegistry of src/router/evl_router.cpp: mailbox ids to entries, as an association list.
-- A connection is known by its index. Each operation holds the mutex, and so is one step.
use core_ra_t.Base.{
  ℕ, ◌≡◌, ◌≢◌, refl, Bool, true, false, Option, none, some, List, [], ◌∷◌, arith, ◌==◌,
  if◌then◌else◌,
}

-- A TCP client, the EVL device of the mailbox with an id, or a peer.
pub data MailboxEntry : Type 0 where
  tcp : ℕ → MailboxEntry
  xbuf : ℕ → MailboxEntry
  peer : ℕ → MailboxEntry

abbrev pub EvlRoutes : Type 0
EvlRoutes = List (ℕ × MailboxEntry)

unfoldable pub find : EvlRoutes → ℕ → Option MailboxEntry
find [] mbx = none
find ((k, e) ∷ t) mbx = if k == mbx then some e else find t mbx

-- `emplace`: an id that is there keeps its entry. `add_tcp`, `add_xbuf` and `add_peer` pass the entry.
unfoldable pub add : EvlRoutes → ℕ → MailboxEntry → Bool × EvlRoutes
add t mbx e = elim (find t mbx) [ none ↦ (true, (mbx, e) ∷ t) | some c ↦ (false, t) ]

abbrev pub add_tcp : EvlRoutes → ℕ → ℕ → Bool × EvlRoutes
add_tcp t mbx con = add t mbx (tcp con)

abbrev pub add_xbuf : EvlRoutes → ℕ → Bool × EvlRoutes
add_xbuf t mbx = add t mbx (xbuf mbx)

abbrev pub add_peer : EvlRoutes → ℕ → ℕ → Bool × EvlRoutes
add_peer t mbx con = add t mbx (peer con)

unfoldable pub remove : EvlRoutes → ℕ → EvlRoutes
remove [] mbx = []
remove ((k, e) ∷ t) mbx = let rest = remove t mbx in if k == mbx then rest else (k, e) ∷ rest

-- The entries of a connection: those of kind Tcp or Peer that name it.
abbrev pub is_for : MailboxEntry → ℕ → Bool
is_for (tcp c) con = c == con
is_for (xbuf m) con = false
is_for (peer c) con = c == con

unfoldable pub remove_all_for_con : EvlRoutes → ℕ → EvlRoutes
remove_all_for_con [] con = []
remove_all_for_con ((k, e) ∷ t) con =
    let rest = remove_all_for_con t con in if is_for e con then rest else (k, e) ∷ rest

-- No id is there twice.
abbrev pub IsFresh : ℕ → EvlRoutes → Type 0
IsFresh mbx [] = Unit {0}
IsFresh mbx ((k, e) ∷ t) = (k ≢ mbx) × IsFresh mbx t

abbrev pub IsMap : EvlRoutes → Type 0
IsMap [] = Unit {0}
IsMap ((k, e) ∷ t) = IsFresh k t × IsMap t

pub find-IsFresh : (t : EvlRoutes) (mbx : ℕ) → IsFresh mbx t → find t mbx ≡ none
unfolding find
find-IsFresh [] mbx h = refl
find-IsFresh ((k, e) ∷ t) mbx h = ground (arith, find-IsFresh t mbx h.1)

remove_all-IsFresh :
    (t : EvlRoutes) (con k : ℕ) → IsFresh k t → IsFresh k (remove_all_for_con t con)
unfolding remove_all_for_con
remove_all-IsFresh [] con k h = tt
remove_all-IsFresh ((j, e) ∷ t) con k h = ground (arith, remove_all-IsFresh t con k h.1)

-- When a connection goes, the entries of its clients and peers go, and no others.
pub find-remove_all_for_con :
    (t : EvlRoutes) (con j : ℕ)
    → IsMap t
    → find (remove_all_for_con t con) j
      ≡ (elim (find t j) [ none ↦ none | some e ↦ if is_for e con then none else some e ])
unfolding remove_all_for_con find
find-remove_all_for_con [] con j m = refl
find-remove_all_for_con ((k, e) ∷ t) con j m = ground (
  arith,
  find-remove_all_for_con t con j m.1,
  find-IsFresh t k m.0,
  find-IsFresh (remove_all_for_con t con) k (remove_all-IsFresh t con k m.0),
)
