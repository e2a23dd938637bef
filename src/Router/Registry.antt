-- ===== src/Router/Registry.antt =====
-- MailboxRegistry of src/router/tcp_router.cpp: mailbox ids to connections, as an association list.
-- A connection is known by its index. Each operation holds the mutex, and so is one step.
use core_ra_t.Base.{
  ℕ, ◌≡◌, ◌≢◌, refl, Bool, true, false, Option, none, some, List, [], ◌∷◌, arith, ap, ◌==◌,
  ℕ_discrete, if◌then◌else◌,
}

abbrev pub Routes : Type 0
Routes = List (ℕ × ℕ)

unfoldable pub find : Routes → ℕ → Option ℕ
find [] mbx = none
find ((k, c) ∷ t) mbx = if k == mbx then some c else find t mbx

-- `emplace`: an id that is there keeps its connection.
unfoldable pub add : Routes → ℕ → ℕ → Bool × Routes
add t mbx con = elim (find t mbx) [ none ↦ (true, (mbx, con) ∷ t) | some c ↦ (false, t) ]

unfoldable pub remove : Routes → ℕ → Routes
remove [] mbx = []
remove ((k, c) ∷ t) mbx = let rest = remove t mbx in if k == mbx then rest else (k, c) ∷ rest

unfoldable pub remove_all : Routes → ℕ → Routes
remove_all [] con = []
remove_all ((k, c) ∷ t) con =
    let rest = remove_all t con in if c == con then rest else (k, c) ∷ rest

-- No id is there twice.
abbrev pub IsFresh : ℕ → Routes → Type 0
IsFresh mbx [] = Unit {0}
IsFresh mbx ((k, c) ∷ t) = (k ≢ mbx) × IsFresh mbx t

abbrev pub IsMap : Routes → Type 0
IsMap [] = Unit {0}
IsMap ((k, c) ∷ t) = IsFresh k t × IsMap t

pub IsFresh-of_find : (t : Routes) (mbx : ℕ) → find t mbx ≡ none → IsFresh mbx t
unfolding find
IsFresh-of_find [] mbx h = tt
IsFresh-of_find ((k, c) ∷ t) mbx h = ground (arith, IsFresh-of_find t mbx)

pub find_of_IsFresh : (t : Routes) (mbx : ℕ) → IsFresh mbx t → find t mbx ≡ none
unfolding find
find_of_IsFresh [] mbx h = refl
find_of_IsFresh ((k, c) ∷ t) mbx h = ground (arith, find_of_IsFresh t mbx h.1)

pub add-IsMap : (t : Routes) (mbx con : ℕ) → IsMap t → IsMap (add t mbx con).1
unfolding add
add-IsMap t mbx con m = ground (arith, IsFresh-of_find t mbx)

remove-IsFresh : (t : Routes) (mbx k : ℕ) → IsFresh k t → IsFresh k (remove t mbx)
unfolding remove
remove-IsFresh [] mbx k h = tt
remove-IsFresh ((j, c) ∷ t) mbx k h = ground (arith, remove-IsFresh t mbx k h.1)

pub remove-IsMap : (t : Routes) (mbx : ℕ) → IsMap t → IsMap (remove t mbx)
unfolding remove
remove-IsMap [] mbx m = tt
remove-IsMap ((j, c) ∷ t) mbx m = ground (arith, remove-IsMap t mbx m.1, remove-IsFresh t mbx j m.0)

remove_all-IsFresh : (t : Routes) (con k : ℕ) → IsFresh k t → IsFresh k (remove_all t con)
unfolding remove_all
remove_all-IsFresh [] con k h = tt
remove_all-IsFresh ((j, c) ∷ t) con k h = ground (arith, remove_all-IsFresh t con k h.1)

pub remove_all-IsMap : (t : Routes) (con : ℕ) → IsMap t → IsMap (remove_all t con)
unfolding remove_all
remove_all-IsMap [] con m = tt
remove_all-IsMap ((j, c) ∷ t) con m =
    ground (arith, remove_all-IsMap t con m.1, remove_all-IsFresh t con j m.0)

-- A registration is found afterwards unless the id was taken; all other lookups stay.
pub find-add :
    (t : Routes) (mbx con j : ℕ)
    → find (add t mbx con).1 j
      ≡ (if mbx == j then (elim (find t mbx) [ none ↦ some con | some c ↦ some c ]) else find t j)
unfolding add find
find-add t mbx con j = elim (ℕ_discrete mbx j) [
  | yes e ↦ ground (arith, ap (find t) e)
  | no ne ↦ ground arith
]

pub find-remove :
    (t : Routes) (mbx j : ℕ) → find (remove t mbx) j ≡ (if mbx == j then none else find t j)
unfolding remove find
find-remove [] mbx j = ground arith
find-remove ((k, c) ∷ t) mbx j = ground (arith, find-remove t mbx j)

-- When a connection goes, its mailboxes go, and no others.
pub find-remove_all :
    (t : Routes) (con j : ℕ)
    → IsMap t
    → find (remove_all t con) j
      ≡ (elim (find t j) [ none ↦ none | some c ↦ if c == con then none else some c ])
unfolding remove_all find
find-remove_all [] con j m = refl
find-remove_all ((k, c) ∷ t) con j m = ground (
  arith,
  find-remove_all t con j m.1,
  find_of_IsFresh t k m.0,
  find_of_IsFresh (remove_all t con) k (remove_all-IsFresh t con k m.0),
)
