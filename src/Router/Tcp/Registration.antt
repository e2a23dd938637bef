-- ===== src/Router/Tcp/Registration.antt =====
-- Registration and removal of mailboxes, by clients and by peers.
use core_ra_t.Base.{
  ℕ, ◌≤◌, ◌≡◌, ◌↔◌, ◌⊎◌, inl, inr, refl, sym, subst, ℕ_discrete, Bool-cases, ap, ◌∙◌, Bool, true,
  false, Option, none, some, List, [], ◌∷◌, ◌++◌, append_assoc, arith, ◌==◌, if◌then◌else◌,
}
use core_ra_t.Tims.Protocol.{
  FrameHeader, make_frame, body_length, mbx_of_body, msg_ok, msg_error,
  msg_router_mbx_init_with_reply, msg_router_mbx_delete, msg_router_peer_register,
  sizeof_mbx_init_payload,
}
use core_ra_t.Router.Registry
use core_ra_t.Router.Registry.{find-remove}
use core_ra_t.Router.Tcp.{
  Router, Link, Packet, connection, lookup_connection, link_open, contains, insert_local,
  erase_local, on_peer_register, on_mbx_init, on_mbx_delete, dispatch, handle_frame,
}
use core_ra_t.Router.Tcp.Sending.{
  emitting, if_taken, to_peers, register_packet, delete_packet, send-emitting,
  on_local_registered-emitting, on_local_deleted-emitting,
}
use core_ra_t.Router.Tcp.Routing.{Received, handle_frame-dispatch}

-- The reply to a registration request.
abbrev pub reply_packet : ℕ → Bool → FrameHeader → Packet
reply_packet i ok f = record {
  link = connection i;
  header = make_frame (if ok then msg_ok else msg_error) f.src 0 0 f.seq_nr 0;
  body = [];
}

-- A mailbox is one of a list.
abbrev pub IsLocal : ℕ → List ℕ → Type 0
IsLocal j [] = ⊥
IsLocal j (x ∷ xs) = (x ≡ j) ⊎ IsLocal j xs

contains-IsLocal : (xs : List ℕ) (m : ℕ) → contains xs m ≡ true → IsLocal m xs
unfolding contains
contains-IsLocal [] m e = absurd (ground (arith, e))
contains-IsLocal (x ∷ xs) m e = elim (ℕ_discrete x m) [
  | yes same ↦ inl same
  | no other ↦ inr (contains-IsLocal xs m (ground (arith, e, other)))
]

insert_local-IsLocal :
    (xs : List ℕ) (m j : ℕ) → IsLocal j (insert_local xs m) ↔ ((m ≡ j) ⊎ IsLocal j xs)
unfolding insert_local
insert_local-IsLocal xs m j = elim (Bool-cases (contains xs m)) [
  | inl known ↦ rw known (
    λ h. inr h,
    λ h. elim h [
      | inl same ↦ subst (λ k. IsLocal k xs) same (contains-IsLocal xs m known)
      | inr before ↦ before
    ],
  )
  | inr unknown ↦ rw unknown (λ h. h, λ h. h)
]

module _ (up : Link → Bool) where
  -- A router after the registration of `mbx` by connection `i`.
  abbrev pub registered : Router → ℕ → FrameHeader → ℕ → Router
  registered r i f mbx = record r {
    registry = (mbx, i) ∷ r.registry;
    local_mailboxes = insert_local r.local_mailboxes mbx;
    sent =
        r.sent
        ++ (if_taken up r (reply_packet i true f)
            ++ to_peers up r r.connections (λ p. register_packet p mbx));
  }

  pub on_mbx_init-free :
      (r : Router) (i : ℕ) (f : FrameHeader) (n : ℕ) (body : List ℕ)
      → sizeof_mbx_init_payload ≤ n
      → Registry.find r.registry (mbx_of_body body) ≡ none
      → on_mbx_init up r i f n body ≡ registered r i f (mbx_of_body body)
  unfolding on_mbx_init Registry.add link_open
  on_mbx_init-free r i f n body big free = ground (
    arith,
    big,
    free,
    send-emitting up (record r { registry = (mbx_of_body body, i) ∷ r.registry }) (connection i)
        (make_frame msg_ok f.src 0 0 f.seq_nr 0) [],
    on_local_registered-emitting up
        (emitting (record r { registry = (mbx_of_body body, i) ∷ r.registry })
          (if_taken up r (reply_packet i true f)))
        (mbx_of_body body),
    append_assoc r.sent (if_taken up r (reply_packet i true f))
        (to_peers up r r.connections (λ p. register_packet p (mbx_of_body body))),
  )

  pub on_mbx_init-taken :
      (r : Router) (i : ℕ) (f : FrameHeader) (n : ℕ) (body : List ℕ) (d : ℕ)
      → sizeof_mbx_init_payload ≤ n
      → Registry.find r.registry (mbx_of_body body) ≡ some d
      → on_mbx_init up r i f n body ≡ emitting r (if_taken up r (reply_packet i false f))
  unfolding on_mbx_init Registry.add link_open
  on_mbx_init-taken r i f n body d big taken = ground (
    arith,
    big,
    taken,
    send-emitting up r (connection i) (make_frame msg_error f.src 0 0 f.seq_nr 0) [],
  )

  pub handle_frame-registered :
      (r : Router) (i : ℕ) (f : FrameHeader) (received : Option (List ℕ)) (body : List ℕ)
      → f.type ≡ msg_router_mbx_init_with_reply
      → body_length f ≤ r.max_msg_size
      → Received f received body
      → sizeof_mbx_init_payload ≤ body_length f
      → Registry.find r.registry (mbx_of_body body) ≡ none
      → handle_frame up r i f received ≡ registered r i f (mbx_of_body body)
  unfolding dispatch
  handle_frame-registered r i f received body t fits got big free =
      handle_frame-dispatch up r i f received body fits got
      ∙ ground (arith, t)
      ∙ on_mbx_init-free r i f (body_length f) body big free

  -- A registration request with a whole payload, not too large and received. Where the mailbox is
  -- unknown, it is routed to the connection and every other mailbox as before, the local mailboxes are
  -- those of before and this one, the client is answered MSG_OK and then every peer whose link takes it
  -- is told, and nothing else changes. Where it is known, whoever holds it keeps it: nothing changes,
  -- and the client is answered MSG_ERROR.
  pub mbx_init_lem :
      (r : Router) (i : ℕ) (f : FrameHeader) (received : Option (List ℕ)) (body : List ℕ)
      → f.type ≡ msg_router_mbx_init_with_reply
      → body_length f ≤ r.max_msg_size
      → Received f received body
      → sizeof_mbx_init_payload ≤ body_length f
      → let after : Router = handle_frame up r i f received in
        (Registry.find r.registry (mbx_of_body body) ≡ none
          → ((j : ℕ)
              → Registry.find after.registry j
                ≡ (if mbx_of_body body == j then some i else Registry.find r.registry j))
            × ((j : ℕ)
                → IsLocal j after.local_mailboxes
                  ↔ ((mbx_of_body body ≡ j) ⊎ IsLocal j r.local_mailboxes))
            × (after.sent
                ≡ r.sent
                  ++ (if_taken up r (reply_packet i true f)
                      ++ to_peers up r r.connections (λ p. register_packet p (mbx_of_body body))))
            × (after ≡ record r {
              registry = after.registry;
              local_mailboxes = after.local_mailboxes;
              sent = after.sent;
            }))
        × ((d : ℕ)
            → Registry.find r.registry (mbx_of_body body) ≡ some d
            → after ≡ emitting r (if_taken up r (reply_packet i false f)))
  unfolding dispatch Registry.find
  mbx_init_lem r i f received body t fits got big = (
    λ free.
        let result = handle_frame-registered r i f received body t fits got big free in
        (
          λ j. ap (λ q. Registry.find q.registry j) result,
          λ j.
              subst
                (λ q.
                  IsLocal j q.local_mailboxes
                  ↔ ((mbx_of_body body ≡ j) ⊎ IsLocal j r.local_mailboxes))
                (sym result) (insert_local-IsLocal r.local_mailboxes (mbx_of_body body) j),
          ap (λ q. q.sent) result,
          subst
              (λ (q : Router). q ≡ record r {
                registry = q.registry;
                local_mailboxes = q.local_mailboxes;
                sent = q.sent;
              })
              (sym result) refl,
        ),
    λ d taken. dispatched ∙ on_mbx_init-taken r i f (body_length f) body d big taken,
  )
    where
      dispatched : handle_frame up r i f received ≡ on_mbx_init up r i f (body_length f) body
      dispatched = handle_frame-dispatch up r i f received body fits got ∙ ground (arith, t)

  -- A removal request with a whole payload, not too large and received, on any connection: the
  -- mailbox is unknown afterwards, whichever connection had registered it, every other mailbox is
  -- routed as before, and every peer whose link takes it is told.
  pub mbx_delete_lem :
      (r : Router) (i : ℕ) (f : FrameHeader) (received : Option (List ℕ)) (body : List ℕ)
      → f.type ≡ msg_router_mbx_delete
      → body_length f ≤ r.max_msg_size
      → Received f received body
      → sizeof_mbx_init_payload ≤ body_length f
      → ((j : ℕ)
          → Registry.find (handle_frame up r i f received).registry j
            ≡ (if mbx_of_body body == j then none else Registry.find r.registry j))
        × ((handle_frame up r i f received).sent
            ≡ r.sent ++ to_peers up r r.connections (λ p. delete_packet p (mbx_of_body body)))
        × ((handle_frame up r i f received).connections ≡ r.connections)
  unfolding dispatch on_mbx_delete link_open
  mbx_delete_lem r i f received body t fits got big = (
    λ j. ap (λ q. Registry.find q.registry j) result ∙ find-remove r.registry (mbx_of_body body) j,
    ap (λ q. q.sent) result,
    ap (λ q. q.connections) result,
  )
    where
      removed : Router
      removed = record r { registry = Registry.remove r.registry (mbx_of_body body) }

      result :
          handle_frame up r i f received
          ≡ emitting
              (record removed {
                local_mailboxes = erase_local r.local_mailboxes (mbx_of_body body);
              })
              (to_peers up r r.connections (λ p. delete_packet p (mbx_of_body body)))
      result =
          handle_frame-dispatch up r i f received body fits got
          ∙ ground (arith, t, big, on_local_deleted-emitting up removed (mbx_of_body body))

  -- Only a peer can register or remove mailboxes by the peer messages: on any other connection such a
  -- frame, not too large and received, changes nothing. From a peer a registration, with a whole
  -- payload, is taken where the mailbox is unknown and otherwise leaves its route, and nothing is sent.
  pub peer_register_lem :
      (r : Router) (i : ℕ) (f : FrameHeader) (received : Option (List ℕ)) (body : List ℕ)
      → f.type ≡ msg_router_peer_register
      → body_length f ≤ r.max_msg_size
      → Received f received body
      → ((lookup_connection r.connections i).is_peer ≡ false → handle_frame up r i f received ≡ r)
        × ((lookup_connection r.connections i).is_peer ≡ true
            → sizeof_mbx_init_payload ≤ body_length f
            → handle_frame up r i f received
              ≡ record r { registry = (Registry.add r.registry (mbx_of_body body) i).1 })
  unfolding dispatch on_peer_register
  peer_register_lem r i f received body t fits got =
      (λ p. dispatched ∙ ground (arith, p), λ p big. dispatched ∙ ground (arith, p, big))
    where
      dispatched : handle_frame up r i f received ≡ on_peer_register up r i (body_length f) body
      dispatched = handle_frame-dispatch up r i f received body fits got ∙ ground (arith, t)
