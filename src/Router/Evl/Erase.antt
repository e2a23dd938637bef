-- ===== src/Router/Evl/Erase.antt =====
-- The EVL router without devices, seen as a TCP router: the kinds of its entries are forgotten.
use core_ra_t.Base.{
  ℕ, ◌≡◌, ◌≢◌, refl, sym, ap, ◌∙◌, Bool, ◌&&◌, none, some, List, [], ◌∷◌, ◌++◌, arith,
  if◌then◌else◌, Option-cases, inl, inr,
}
use core_ra_t.Tims.Protocol.{FrameHeader}
use core_ra_t.Router.Registry
use core_ra_t.Router.Tcp as Tcp
use core_ra_t.Router.Tcp.{
  Router, Connection, Link, Packet, connection, upstream, system_route, link_open, insert_local,
  erase_local, lookup_connection, system_index, system_id_of,
}
use core_ra_t.Router.Tcp.Sending.{
  emitting, if_taken, to_peers, announcements, hello_packet, register_packet, delete_packet,
  send-emitting, advertise_as_peer-emitting, on_local_registered-emitting,
  on_local_deleted-emitting,
}
use core_ra_t.Router.Evl.Routes
use core_ra_t.Router.Evl.Routes.{EvlRoutes, MailboxEntry, tcp, xbuf, peer}
use core_ra_t.Router.Evl.{
  EvlRouter, forward, on_local_registered, on_local_deleted, advertise_as_peer, forward_to_upstream,
}

-- The connection of an entry that is not a device.
abbrev pub con_of : MailboxEntry → ℕ
con_of (tcp c) = c
con_of (xbuf m) = m
con_of (peer c) = c

abbrev pub erase_routes : EvlRoutes → Registry.Routes
erase_routes [] = []
erase_routes ((k, e) ∷ t) = (k, con_of e) ∷ erase_routes t

-- No mailbox is routed to a device.
abbrev pub NoXbuf : EvlRoutes → Type 0
NoXbuf [] = Unit {0}
NoXbuf ((k, tcp c) ∷ t) = NoXbuf t
NoXbuf ((k, xbuf m) ∷ t) = ⊥
NoXbuf ((k, peer c) ∷ t) = NoXbuf t

abbrev pub erase : EvlRouter → Router
erase e = record e.net { registry = erase_routes e.routes }

pub find-erase :
    (t : EvlRoutes) (j : ℕ)
    → Registry.find (erase_routes t) j
      ≡ (elim (Routes.find t j) [ none ↦ none | some x ↦ some (con_of x) ])
unfolding Registry.find Routes.find
find-erase [] j = refl
find-erase ((k, e) ∷ t) j = ground (arith, find-erase t j)

pub add-erase :
    (t : EvlRoutes) (mbx : ℕ) (e : MailboxEntry)
    → Registry.add (erase_routes t) mbx (con_of e)
      ≡ ((Routes.add t mbx e).0, erase_routes (Routes.add t mbx e).1)
unfolding Registry.add Routes.add
add-erase t mbx e = elim (Option-cases (Routes.find t mbx)) [
  | inl n ↦ ground (arith, n, find-erase t mbx)
  | inr (x, s) ↦ ground (arith, s, find-erase t mbx)
]

pub remove-erase :
    (t : EvlRoutes) (mbx : ℕ)
    → Registry.remove (erase_routes t) mbx ≡ erase_routes (Routes.remove t mbx)
unfolding Registry.remove Routes.remove
remove-erase [] mbx = refl
remove-erase ((k, e) ∷ t) mbx = ground (arith, remove-erase t mbx)

pub find-NoXbuf : (t : EvlRoutes) (j m : ℕ) → NoXbuf t → Routes.find t j ≢ some (xbuf m)
unfolding Routes.find
find-NoXbuf [] j m h e = ground (arith, e)
find-NoXbuf ((k, tcp c) ∷ t) j m h e = ground (arith, e, find-NoXbuf t j m h)
find-NoXbuf ((k, peer c) ∷ t) j m h e = ground (arith, e, find-NoXbuf t j m h)
find-NoXbuf ((k, xbuf c) ∷ t) j m h e = absurd h

-- The registry decides nothing of what a link takes.
link_open-registry :
    (r : Router) (x : Registry.Routes) (l : Link)
    → link_open (record r { registry = x }) l ≡ link_open r l
unfolding link_open
link_open-registry r x (connection i) = refl
link_open-registry r x upstream = refl
link_open-registry r x (system_route k) = refl

-- A router with the registry that the EVL router's entries make.
abbrev routed : EvlRouter → Router → Router
routed e r = record r { registry = erase_routes e.routes }

module _ (up : Link → Bool) where
  if_taken-registry :
      (r : Router) (x : Registry.Routes) (p : Packet)
      → if_taken up (record r { registry = x }) p ≡ if_taken up r p
  if_taken-registry r x p =
      ap (λ b. if b && up p.link then p ∷ [] else []) (link_open-registry r x p.link)

  pub to_peers-registry :
      (r : Router) (x : Registry.Routes) (cs : List Connection) (packet : ℕ → Packet)
      → to_peers up (record r { registry = x }) cs packet ≡ to_peers up r cs packet
  to_peers-registry r x [] packet = refl
  to_peers-registry r x (c ∷ cs) packet =
      ground (arith, if_taken-registry r x (packet c.index), to_peers-registry r x cs packet)

  announcements-registry :
      (r : Router) (x : Registry.Routes) (i : ℕ) (ms : List ℕ)
      → announcements up (record r { registry = x }) i ms ≡ announcements up r i ms
  announcements-registry r x i [] = refl
  announcements-registry r x i (m ∷ ms) =
      ground (arith, if_taken-registry r x (register_packet i m), announcements-registry r x i ms)

  pub forward-erase :
      (e : EvlRouter) (i : ℕ) (h : FrameHeader) (body : List ℕ)
      → erase (forward up e i h body) ≡ (Tcp.send up (erase e) (connection i) h body).1
  unfolding forward
  forward-erase e i h body =
      ap (routed e) (send-emitting up e.net (connection i) h body)
      ∙ ap (emitting (erase e)) (sym (if_taken-registry e.net (erase_routes e.routes) _))
      ∙ sym (send-emitting up (erase e) (connection i) h body)

  pub advertise_as_peer-erase :
      (e : EvlRouter) (i : ℕ)
      → erase (advertise_as_peer up e i) ≡ Tcp.advertise_as_peer up (erase e) i
  unfolding advertise_as_peer
  advertise_as_peer-erase e i =
      ap (routed e) (advertise_as_peer-emitting up e.net i)
      ∙ ap (λ out. emitting (erase e) (out ++ announcements up e.net i e.net.local_mailboxes))
          (sym (if_taken-registry e.net (erase_routes e.routes) (hello_packet i)))
      ∙ ap (λ out. emitting (erase e) (if_taken up (erase e) (hello_packet i) ++ out))
          (sym (announcements-registry e.net (erase_routes e.routes) i e.net.local_mailboxes))
      ∙ sym (advertise_as_peer-emitting up (erase e) i)

  pub on_local_registered-erase :
      (e : EvlRouter) (mbx : ℕ)
      → erase (on_local_registered up e mbx) ≡ Tcp.on_local_registered up (erase e) mbx
  unfolding on_local_registered
  on_local_registered-erase e mbx =
      ap (routed e) (on_local_registered-emitting up e.net mbx)
      ∙ ap
          (emitting (record (erase e) { local_mailboxes = insert_local e.net.local_mailboxes mbx }))
          (sym (
            to_peers-registry e.net (erase_routes e.routes) e.net.connections
              (λ i. register_packet i mbx)))
      ∙ sym (on_local_registered-emitting up (erase e) mbx)

  pub on_local_deleted-erase :
      (e : EvlRouter) (mbx : ℕ)
      → erase (on_local_deleted up e mbx) ≡ Tcp.on_local_deleted up (erase e) mbx
  unfolding on_local_deleted
  on_local_deleted-erase e mbx =
      ap (routed e) (on_local_deleted-emitting up e.net mbx)
      ∙ ap (emitting (record (erase e) { local_mailboxes = erase_local e.net.local_mailboxes mbx }))
          (sym (
            to_peers-registry e.net (erase_routes e.routes) e.net.connections
              (λ i. delete_packet i mbx)))
      ∙ sym (on_local_deleted-emitting up (erase e) mbx)

  pub forward_to_upstream-erase :
      (e : EvlRouter) (h : FrameHeader) (body : List ℕ)
      → ((forward_to_upstream up e h body).0 ≡ (Tcp.forward_to_upstream up (erase e) h body).0)
        × (erase (forward_to_upstream up e h body).1
            ≡ (Tcp.forward_to_upstream up (erase e) h body).1)
  unfolding forward_to_upstream Tcp.forward_to_upstream Tcp.send link_open
  forward_to_upstream-erase e h body =
      elim (Option-cases (system_index e.net.system_connections (system_id_of h.dest) 0)) [
        | inl n ↦ ground (arith, n)
        | inr (k, s) ↦ ground (arith, s)
      ]
