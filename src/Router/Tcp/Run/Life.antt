-- ===== src/Router/Tcp/Run/Life.antt =====
-- The end of a connection, and a connection whose socket the router has closed.
use core_ra_t.Base.{
  ℕ, ◌<◌, ◌≡◌, ◌≢◌, refl, sym, ap, subst, ◌∙◌, inl, inr, Bool, true, false, ◌&&◌, Option, none,
  some, List, [], ◌∷◌, ◌++◌, append_assoc, arith, ◌==◌, if◌then◌else◌, Bool-cases,
}
use core_ra_t.Tims.Protocol.{make_frame, msg_ok, msg_error, FrameHeader, mbx_of_body, body_length}
use core_ra_t.Router.Registry
use core_ra_t.Router.Registry.{find-remove_all, remove_all-IsMap}
use core_ra_t.Router.Tcp.{
  Router, Connection, Link, Packet, connection, lookup_connection, update_connection, link_open,
  contains, with_connection, set_closed, set_peer, on_hello, on_peer_register, on_peer_delete,
  on_mbx_init, on_mbx_delete, on_data, on_local_registered, advertise_as_peer, send,
  forward_to_upstream, answer_error, dispatch, handle_frame,
}
use core_ra_t.Router.Tcp.Run.{Event, idle, broken, frame, run_round, run}
use core_ra_t.Router.Tcp.Sending.{
  if_taken, hello_packet, register_packet, announcements, send-emitting, advertise_as_peer-emitting,
  on_local_registered-emitting, on_local_deleted-emitting,
}
use core_ra_t.Router.Tcp.Invariant.{IsValid, handle_frame-IsValid, remove_all-OwnedBelow}

next_index_of : {q r : Router} → q ≡ r → q.next_index ≡ r.next_index
next_index_of e = ap (λ x. x.next_index) e

module _ (up : Link → Bool) where
  -- No frame changes the number of connections that there have been.
  on_mbx_init-next_index :
      (r : Router) (i : ℕ) (f : FrameHeader) (n : ℕ) (body : List ℕ)
      → (on_mbx_init up r i f n body).next_index ≡ r.next_index
  unfolding on_mbx_init on_local_registered
  on_mbx_init-next_index r i f n body =
      elim (Bool-cases (Registry.add r.registry (mbx_of_body body) i).0) [
        | inl ok ↦ ground (
          arith,
          ok,
          next_index_of (on_local_registered-emitting up (answered true) (mbx_of_body body)),
          next_index_of
              (send-emitting up routed (connection i) (make_frame msg_ok f.src 0 0 f.seq_nr 0) []),
        )
        | inr taken ↦ ground (
          arith,
          taken,
          next_index_of (
              send-emitting up routed (connection i) (make_frame msg_error f.src 0 0 f.seq_nr 0)
                []),
        )
      ]
    where
      routed : Router
      routed = record r { registry = (Registry.add r.registry (mbx_of_body body) i).1 }

      answered : Bool → Router
      answered ok =
          (send up routed (connection i)
            (make_frame (if ok then msg_ok else msg_error) f.src 0 0 f.seq_nr 0) []).1

  on_data-next_index :
      (r : Router) (i : ℕ) (f : FrameHeader) (body : List ℕ)
      → (on_data up r i f body).next_index ≡ r.next_index
  unfolding on_data forward_to_upstream answer_error send
  on_data-next_index r i f body = ground arith

  dispatch-next_index :
      (r : Router) (i : ℕ) (f : FrameHeader) (n : ℕ) (body : List ℕ)
      → (dispatch up r i f n body).next_index ≡ r.next_index
  unfolding dispatch on_hello on_peer_register on_peer_delete on_mbx_delete with_connection
  dispatch-next_index r i f n body = ground (
    arith,
    on_data-next_index r i f body,
    on_mbx_init-next_index r i f n body,
    next_index_of (
        on_local_deleted-emitting up
          (record r { registry = Registry.remove r.registry (mbx_of_body body) })
          (mbx_of_body body)),
    next_index_of (advertise_as_peer-emitting up (with_connection r i set_peer) i),
  )

  handle_frame-next_index :
      (r : Router) (i : ℕ) (f : FrameHeader) (received : Option (List ℕ))
      → (handle_frame up r i f received).next_index ≡ r.next_index
  unfolding handle_frame with_connection
  handle_frame-next_index r i f none = ground (arith, dispatch-next_index r i f (body_length f) [])
  handle_frame-next_index r i f (some body) = ground (
    arith,
    dispatch-next_index r i f (body_length f) [],
    dispatch-next_index r i f (body_length f) body,
  )

-- A router that has been told that connection `i` ended.
abbrev ended : Router → ℕ → Router
ended r i = record r { registry = Registry.remove_all r.registry i }

-- The frame is among those on their way out.
abbrev pub IsSent : Router → Packet → Type 0
IsSent r p = (xs : List Packet) × (ys : List Packet) × (r.sent ≡ xs ++ (p ∷ ys))

lookup-set_closed :
    (cs : List Connection) (i : ℕ)
    → (lookup_connection (update_connection cs i set_closed) i).is_open ≡ false
unfolding lookup_connection update_connection
lookup-set_closed [] i = refl
lookup-set_closed (c ∷ cs) i = ground (arith, lookup-set_closed cs i)

module _ (up : Link → Bool) (poll : Bool → Event → Bool) where
  -- Where no event makes a closed socket ready: after a frame larger than the maximum on a connection,
  -- the routes and the local mailboxes are those before, and whatever the network offers, each further
  -- round of the connection's loop goes on and changes nothing.
  pub oversize_stalls :
      (closed_idle : (e : Event) → poll false e ≡ false) (r : Router) (i : ℕ) (f : FrameHeader)
      (received : Option (List ℕ))
      → r.max_msg_size < body_length f
      → ((handle_frame up r i f received).registry ≡ r.registry)
        × ((handle_frame up r i f received).local_mailboxes ≡ r.local_mailboxes)
        × ((e : Event)
            → run_round up poll (handle_frame up r i f received) i e
              ≡ (true, handle_frame up r i f received))
  unfolding handle_frame with_connection run_round
  oversize_stalls closed_idle r i f received big = (
    ground (arith, big),
    ground (arith, big),
    λ e. ground (arith, big, closed_idle e, lookup-set_closed r.connections i),
  )

  ended-IsValid : (r : Router) (i : ℕ) → IsValid r → IsValid (ended r i)
  ended-IsValid r i v = record {
    routes = remove_all-IsMap r.registry i v.routes;
    owners = remove_all-OwnedBelow r.next_index r.registry i v.owners;
    indices = v.indices;
    distinct = v.distinct;
  }

  ended-find : (r : Router) (i j : ℕ) → IsValid r → Registry.find (ended r i).registry j ≢ some i
  ended-find r i j v e = ground (arith, find-remove_all r.registry i j v.routes, e)

  run_round-IsValid :
      (r : Router) (i : ℕ) (e : Event)
      → i < r.next_index
      → IsValid r
      → IsValid (run_round up poll r i e).1 × (i < (run_round up poll r i e).1.next_index)
  unfolding run_round
  run_round-IsValid r i idle lt v = ground (arith, lt, v)
  run_round-IsValid r i broken lt v = ground (arith, lt, v)
  run_round-IsValid r i (frame f received) lt v =
      elim (Bool-cases (poll (lookup_connection r.connections i).is_open (frame f received))) [
        | inl y ↦
            rw (y, run_round)
              (
                handle_frame-IsValid up r i f received lt v,
                subst (λ n. i < n) (sym (handle_frame-next_index up r i f received)) lt,
              )
        | inr n ↦ rw (n, run_round) (v, lt)
      ]

  -- Whatever the network offers a connection that there has been: its loop keeps the tables as
  -- `handle_frame` does, and once it has ended no mailbox is routed to the connection.
  pub run-forgets :
      (r : Router) (i : ℕ) (es : List Event)
      → i < r.next_index
      → IsValid r
      → IsValid (run up poll r i es)
        × ((j : ℕ) → Registry.find (run up poll r i es).registry j ≢ some i)
  unfolding run
  run-forgets r i [] lt v = (ended-IsValid r i v, λ j. ended-find r i j v)
  run-forgets r i (e ∷ es) lt v = elim (Bool-cases (run_round up poll r i e).0) [
    | inl on ↦
        rw (on, run)
          (run-forgets (run_round up poll r i e).1 i es (run_round-IsValid r i e lt v).1
            (run_round-IsValid r i e lt v).0)
    | inr off ↦
        rw (off, run)
          (
            ended-IsValid _ i (run_round-IsValid r i e lt v).0,
            λ j. ended-find _ i j (run_round-IsValid r i e lt v).0,
          )
  ]

  announcements-split :
      (r : Router) (p m : ℕ) (ms : List ℕ)
      → (link_open r (connection p) && up (connection p)) ≡ true
      → contains ms m ≡ true
      → (xs : List Packet) × (ys : List Packet) × (announcements up r p ms
          ≡ xs ++ (register_packet p m ∷ ys))
  unfolding contains
  announcements-split r p m [] taken c = ground (arith, c)
  announcements-split r p m (x ∷ xs) taken c = elim (Bool-cases (x == m)) [
    | inl y ↦ ([], announcements up r p xs, ground (arith, y, taken))
    | inr n ↦
        (let (before, after, e) = announcements-split r p m xs taken (ground (arith, n, c)) in
          (register_packet p x ∷ before, after, ground (arith, taken, e)))
  ]

  -- When the connection that registered a mailbox ends, the mailbox is unknown, yet it stays a local
  -- mailbox: a peer that connects afterwards, on a link that takes what is sent, is told of it.
  pub ended_advertised :
      (r : Router) (i p m : ℕ)
      → IsValid r
      → Registry.find r.registry m ≡ some i
      → contains r.local_mailboxes m ≡ true
      → (link_open r (connection p) && up (connection p)) ≡ true
      → (Registry.find (run up poll r i []).registry m ≡ none)
        × IsSent (advertise_as_peer up (run up poll r i []) p) (register_packet p m)
  unfolding run link_open
  ended_advertised r i p m v found local taken =
      let (before, after, e) = announcements-split (ended r i) p m r.local_mailboxes taken local in
      (
        ground (arith, find-remove_all r.registry i m v.routes, found),
        (
          r.sent ++ (hello ++ before),
          after,
          ap (λ q. q.sent) (advertise_as_peer-emitting up (ended r i) p)
              ∙ ap (λ out. r.sent ++ (hello ++ out)) e
              ∙ ap (λ out. r.sent ++ out)
                  (sym (append_assoc hello before (register_packet p m ∷ after)))
              ∙ sym (append_assoc r.sent (hello ++ before) (register_packet p m ∷ after)),
        ),
      )
    where
      hello : List Packet
      hello = if_taken up (ended r i) (hello_packet p)
