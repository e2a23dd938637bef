-- ===== src/Router/Tcp/Sending.antt =====
-- What the sending helpers of the router add to what was sent, and that they change nothing else.
use core_ra_t.Base.{
  ℕ, ◌≡◌, sym, ap, ◌∙◌, Bool, ◌&&◌, List, [], ◌∷◌, ◌++◌, append-nil, append_assoc, arith,
  if◌then◌else◌, Bool-cases, inl, inr,
}
use core_ra_t.Tims.Protocol.{
  FrameHeader, make_frame, u32_bytes, msg_router_peer_hello, msg_router_peer_register,
  msg_router_peer_delete, sizeof_mbx_init_payload,
}
use core_ra_t.Router.Tcp.{
  Router, Connection, Link, Packet, connection, link_open, insert_local, erase_local, send,
  send_peer_register, send_peer_delete, broadcast, register_all, advertise_as_peer,
  on_local_registered, on_local_deleted,
}

abbrev pub emitting : Router → List Packet → Router
emitting r out = record r { sent = r.sent ++ out }

abbrev pub hello_packet : ℕ → Packet
hello_packet i = record {
  link = connection i;
  header = make_frame msg_router_peer_hello 0 0 0 0 0;
  body = [];
}

abbrev pub register_packet : ℕ → ℕ → Packet
register_packet i mbx = record {
  link = connection i;
  header = make_frame msg_router_peer_register 0 0 0 0 sizeof_mbx_init_payload;
  body = u32_bytes mbx;
}

abbrev pub delete_packet : ℕ → ℕ → Packet
delete_packet i mbx = record {
  link = connection i;
  header = make_frame msg_router_peer_delete 0 0 0 0 sizeof_mbx_init_payload;
  body = u32_bytes mbx;
}

pub emitting-emitting :
    (r : Router) (xs ys : List Packet) → emitting (emitting r xs) ys ≡ emitting r (xs ++ ys)
emitting-emitting r xs ys = ap (λ p. record r { sent = p }) (append_assoc r.sent xs ys)

pub emitting-nil : (r : Router) → emitting r [] ≡ r
emitting-nil r = ap (λ p. record r { sent = p }) (append-nil r.sent)

module _ (up : Link → Bool) where
  -- The packet, if its link takes it.
  abbrev pub if_taken : Router → Packet → List Packet
  if_taken r p = if link_open r p.link && up p.link then p ∷ [] else []

  pub send-emitting :
      (r : Router) (l : Link) (h : FrameHeader) (body : List ℕ)
      → (send up r l h body).1
        ≡ emitting r (if_taken r (record { link = l; header = h; body = body }))
  unfolding send
  send-emitting r l h body = elim (Bool-cases (link_open r l && up l)) [
    | inl t ↦ ground (arith, t)
    | inr f ↦ ground (arith, f, emitting-nil r)
  ]

  -- The packets of a broadcast: one for each peer whose link takes it.
  abbrev pub to_peers : Router → List Connection → (ℕ → Packet) → List Packet
  to_peers r [] packet = []
  to_peers r (c ∷ cs) packet =
      (if c.is_peer then if_taken r (packet c.index) else []) ++ to_peers r cs packet

  pub broadcast-emitting :
      (cs : List Connection) (fn : Router → ℕ → Router) (packet : ℕ → Packet) (r : Router)
      → ((out : List Packet) (i : ℕ)
          → fn (emitting r out) i ≡ emitting (emitting r out) (if_taken r (packet i)))
      → (out : List Packet)
      → broadcast up cs fn (emitting r out) ≡ emitting r (out ++ to_peers r cs packet)
  unfolding broadcast
  broadcast-emitting [] fn packet r h out = ap (emitting r) (sym (append-nil out))
  broadcast-emitting (c ∷ cs) fn packet r h out = elim (Bool-cases c.is_peer) [
    | inl p ↦ rw p (
        ap (broadcast up cs fn)
          (h out c.index ∙ emitting-emitting r out (if_taken r (packet c.index)))
        ∙ broadcast-emitting cs fn packet r h (out ++ if_taken r (packet c.index))
        ∙ ap (emitting r) (append_assoc out (if_taken r (packet c.index)) (to_peers r cs packet)))
    | inr n ↦ rw n (broadcast-emitting cs fn packet r h out)
  ]

  -- The announcements of a list of mailboxes to one connection.
  abbrev pub announcements : Router → ℕ → List ℕ → List Packet
  announcements r i [] = []
  announcements r i (m ∷ ms) = if_taken r (register_packet i m) ++ announcements r i ms

  register_all-emitting :
      (ms : List ℕ) (r : Router) (i : ℕ) (out : List Packet)
      → register_all up ms (emitting r out) i ≡ emitting r (out ++ announcements r i ms)
  unfolding register_all send_peer_register link_open
  register_all-emitting [] r i out = ap (emitting r) (sym (append-nil out))
  register_all-emitting (m ∷ ms) r i out =
      ap (λ q. register_all up ms q i)
        (send-emitting (emitting r out) (connection i) _ _
          ∙ emitting-emitting r out (if_taken r (register_packet i m)))
      ∙ register_all-emitting ms r i (out ++ if_taken r (register_packet i m))
      ∙ ap (emitting r) (append_assoc out (if_taken r (register_packet i m)) (announcements r i ms))

  -- A new peer is sent a HELLO, and a registration for each local mailbox.
  pub advertise_as_peer-emitting :
      (r : Router) (i : ℕ)
      → advertise_as_peer up r i
        ≡ emitting r (if_taken r (hello_packet i) ++ announcements r i r.local_mailboxes)
  unfolding advertise_as_peer
  advertise_as_peer-emitting r i =
      ap (λ q. register_all up q.local_mailboxes q i) (send-emitting r (connection i) _ _)
      ∙ register_all-emitting r.local_mailboxes r i (if_taken r (hello_packet i))

  pub on_local_registered-emitting :
      (r : Router) (mbx : ℕ)
      → on_local_registered up r mbx
        ≡ emitting
            (record r { local_mailboxes = insert_local r.local_mailboxes mbx })
            (to_peers r r.connections (λ i. register_packet i mbx))
  unfolding on_local_registered send_peer_register link_open
  on_local_registered-emitting r mbx =
      ap (broadcast up r.connections (λ q i. send_peer_register up q i mbx)) (sym (emitting-nil r'))
      ∙ broadcast-emitting r.connections (λ q i. send_peer_register up q i mbx)
          (λ i. register_packet i mbx) r'
          (λ out i. send-emitting (emitting r' out) (connection i) _ _) []
    where
      r' : Router
      r' = record r { local_mailboxes = insert_local r.local_mailboxes mbx }

  pub on_local_deleted-emitting :
      (r : Router) (mbx : ℕ)
      → on_local_deleted up r mbx
        ≡ emitting
            (record r { local_mailboxes = erase_local r.local_mailboxes mbx })
            (to_peers r r.connections (λ i. delete_packet i mbx))
  unfolding on_local_deleted send_peer_delete link_open
  on_local_deleted-emitting r mbx =
      ap (broadcast up r.connections (λ q i. send_peer_delete up q i mbx)) (sym (emitting-nil r'))
      ∙ broadcast-emitting r.connections (λ q i. send_peer_delete up q i mbx)
          (λ i. delete_packet i mbx) r'
          (λ out i. send-emitting (emitting r' out) (connection i) _ _) []
    where
      r' : Router
      r' = record r { local_mailboxes = erase_local r.local_mailboxes mbx }
