-- ===== src/Router/Tcp/Invariant.antt =====
-- What holds of the router's tables in every state.
use core_ra_t.Base.{
  ℕ, ◌<◌, ◌≡◌, ◌≢◌, refl, sym, subst, inl, inr, Bool, true, false, Option, none, some, List, [],
  ◌∷◌, arith, ltb, ◌==◌, if◌then◌else◌, Bool-cases, Option-cases,
}
use core_ra_t.Tims.Protocol.{
  sizeof_mbx_init_payload, make_frame, msg_ok, msg_error, FrameHeader, mbx_of_body, body_length,
}
use core_ra_t.Router.Registry
use core_ra_t.Router.Registry.{Routes, IsMap, add-IsMap, remove-IsMap, remove_all-IsMap}
use core_ra_t.Router.Tcp.{
  Router, Connection, Link, connection, lookup_connection, update_connection, with_connection,
  set_closed, set_peer, set_no_watchdog, on_hello, on_peer_register, on_peer_delete, on_mbx_init,
  on_mbx_delete, on_data, on_local_registered, on_local_deleted, system_index, system_id_of,
  upstream, system_route, advertise_as_peer, send, forward_to_upstream, answer_error, dispatch,
  handle_frame,
}
use core_ra_t.Router.Tcp.Sending.{
  emitting, if_taken, send-emitting, advertise_as_peer-emitting, on_local_registered-emitting,
  on_local_deleted-emitting,
}

-- Every mailbox is routed to a connection that there has been.
abbrev pub OwnedBelow : ℕ → Routes → Type 0
OwnedBelow n [] = Unit {0}
OwnedBelow n ((k, c) ∷ t) = (c < n) × OwnedBelow n t

abbrev pub IndexedBelow : ℕ → List Connection → Type 0
IndexedBelow n [] = Unit {0}
IndexedBelow n (c ∷ cs) = (c.index < n) × IndexedBelow n cs

-- No two connections share an index.
abbrev pub Unindexed : ℕ → List Connection → Type 0
Unindexed i [] = Unit {0}
Unindexed i (c ∷ cs) = (c.index ≢ i) × Unindexed i cs

abbrev pub AreDistinct : List Connection → Type 0
AreDistinct [] = Unit {0}
AreDistinct (c ∷ cs) = Unindexed c.index cs × AreDistinct cs

pub record IsValid (r : Router) : Type 0 where
  pub routes : IsMap r.registry
  pub owners : OwnedBelow r.next_index r.registry
  pub indices : IndexedBelow r.next_index r.connections
  pub distinct : AreDistinct r.connections

add-OwnedBelow :
    (n : ℕ) (t : Routes) (mbx i : ℕ)
    → i < n
    → OwnedBelow n t
    → OwnedBelow n (Registry.add t mbx i).1
unfolding Registry.add
add-OwnedBelow n t mbx i lt h = ground arith

remove-OwnedBelow :
    (n : ℕ) (t : Routes) (mbx : ℕ) → OwnedBelow n t → OwnedBelow n (Registry.remove t mbx)
unfolding Registry.remove
remove-OwnedBelow n [] mbx h = tt
remove-OwnedBelow n ((k, c) ∷ t) mbx h = ground (arith, remove-OwnedBelow n t mbx h.1)

pub remove_all-OwnedBelow :
    (n : ℕ) (t : Routes) (i : ℕ) → OwnedBelow n t → OwnedBelow n (Registry.remove_all t i)
unfolding Registry.remove_all
remove_all-OwnedBelow n [] i h = tt
remove_all-OwnedBelow n ((k, c) ∷ t) i h = ground (arith, remove_all-OwnedBelow n t i h.1)

-- An update that keeps the index of a connection.
abbrev KeepsIndex : (Connection → Connection) → Type 0
KeepsIndex f = (c : Connection) → (f c).index ≡ c.index

update-IndexedBelow :
    (n : ℕ) (cs : List Connection) (i : ℕ) (f : Connection → Connection)
    → KeepsIndex f
    → IndexedBelow n cs
    → IndexedBelow n (update_connection cs i f)
unfolding update_connection
update-IndexedBelow n [] i f k h = tt
update-IndexedBelow n (c ∷ cs) i f k h = ground (arith, k c, update-IndexedBelow n cs i f k h.1)

update-Unindexed :
    (j : ℕ) (cs : List Connection) (i : ℕ) (f : Connection → Connection)
    → KeepsIndex f
    → Unindexed j cs
    → Unindexed j (update_connection cs i f)
unfolding update_connection
update-Unindexed j [] i f k h = tt
update-Unindexed j (c ∷ cs) i f k h = ground (arith, k c, update-Unindexed j cs i f k h.1)

update-AreDistinct :
    (cs : List Connection) (i : ℕ) (f : Connection → Connection)
    → KeepsIndex f
    → AreDistinct cs
    → AreDistinct (update_connection cs i f)
unfolding update_connection
update-AreDistinct [] i f k h = tt
update-AreDistinct (c ∷ cs) i f k h = elim (Bool-cases (c.index == i)) [
  | inl same ↦ rw same (subst (λ j. Unindexed j cs) (sym (k c)) h.0, h.1)
  | inr other ↦ rw other (update-Unindexed c.index cs i f k h.0, update-AreDistinct cs i f k h.1)
]

pub with_connection-IsValid :
    (r : Router) (i : ℕ) (f : Connection → Connection)
    → KeepsIndex f
    → IsValid r
    → IsValid (with_connection r i f)
unfolding with_connection
with_connection-IsValid r i f k v = record {
  routes = v.routes;
  owners = v.owners;
  indices = update-IndexedBelow r.next_index r.connections i f k v.indices;
  distinct = update-AreDistinct r.connections i f k v.distinct;
}

-- Routers with the same tables are valid together.
abbrev SameTables : Router → Router → Type 0
SameTables r q =
    (q.registry ≡ r.registry) × (q.next_index ≡ r.next_index) × (q.connections ≡ r.connections)

IsValid-of_SameTables : (r q : Router) → SameTables r q → IsValid r → IsValid q
IsValid-of_SameTables r q (a, b, c) v = record {
  routes = subst IsMap (sym a) v.routes;
  owners =
      subst (λ n. OwnedBelow n q.registry) (sym b)
        (subst (OwnedBelow r.next_index) (sym a) v.owners);
  indices =
      subst (λ n. IndexedBelow n q.connections) (sym b)
        (subst (IndexedBelow r.next_index) (sym c) v.indices);
  distinct = subst AreDistinct (sym c) v.distinct;
}

-- The tables of a router after a mailbox is routed to a connection, and after one is removed.
add_route-IsValid :
    (r : Router) (mbx i : ℕ)
    → i < r.next_index
    → IsValid r
    → IsValid (record r { registry = (Registry.add r.registry mbx i).1 })
add_route-IsValid r mbx i lt v = record {
  routes = add-IsMap r.registry mbx i v.routes;
  owners = add-OwnedBelow r.next_index r.registry mbx i lt v.owners;
  indices = v.indices;
  distinct = v.distinct;
}

remove_route-IsValid :
    (r : Router) (mbx : ℕ)
    → IsValid r
    → IsValid (record r { registry = Registry.remove r.registry mbx })
remove_route-IsValid r mbx v = record {
  routes = remove-IsMap r.registry mbx v.routes;
  owners = remove-OwnedBelow r.next_index r.registry mbx v.owners;
  indices = v.indices;
  distinct = v.distinct;
}

-- A test whose two results are valid has a valid result.
if-IsValid : (b : Bool) (x y : Router) → IsValid x → IsValid y → IsValid (if b then x else y)
if-IsValid true x y vx vy = vx
if-IsValid false x y vx vy = vy

module _ (up : Link → Bool) where
  send-IsValid :
      (r : Router) (l : Link) (h : FrameHeader) (body : List ℕ)
      → IsValid r
      → IsValid (send up r l h body).1
  send-IsValid r l h body v = subst IsValid (sym (send-emitting up r l h body)) (
      IsValid-of_SameTables r
        (emitting r (if_taken up r (record { link = l; header = h; body = body })))
        (refl, refl, refl) v)

  on_local_registered-IsValid :
      (r : Router) (mbx : ℕ) → IsValid r → IsValid (on_local_registered up r mbx)
  on_local_registered-IsValid r mbx v =
      subst IsValid (sym (on_local_registered-emitting up r mbx))
        (IsValid-of_SameTables r _ (refl, refl, refl) v)

  on_local_deleted-IsValid :
      (r : Router) (mbx : ℕ) → IsValid r → IsValid (on_local_deleted up r mbx)
  on_local_deleted-IsValid r mbx v =
      subst IsValid (sym (on_local_deleted-emitting up r mbx))
        (IsValid-of_SameTables r _ (refl, refl, refl) v)

  advertise_as_peer-IsValid : (r : Router) (i : ℕ) → IsValid r → IsValid (advertise_as_peer up r i)
  advertise_as_peer-IsValid r i v =
      subst IsValid (sym (advertise_as_peer-emitting up r i))
        (IsValid-of_SameTables r _ (refl, refl, refl) v)

  forward_to_upstream-IsValid :
      (r : Router) (h : FrameHeader) (body : List ℕ)
      → IsValid r
      → IsValid (forward_to_upstream up r h body).1
  unfolding forward_to_upstream
  forward_to_upstream-IsValid r h body v =
      elim (Option-cases (system_index r.system_connections (system_id_of h.dest) 0)) [
        | inl n ↦ rw (n, forward_to_upstream) (send-IsValid r upstream h body v)
        | inr (k, s) ↦ rw (s, forward_to_upstream) (send-IsValid r (system_route k) h body v)
      ]

  on_mbx_init-IsValid :
      (r : Router) (i : ℕ) (f : FrameHeader) (n : ℕ) (body : List ℕ)
      → i < r.next_index
      → IsValid r
      → IsValid (on_mbx_init up r i f n body)
  unfolding on_mbx_init
  on_mbx_init-IsValid r i f n body lt v = if-IsValid (ltb n sizeof_mbx_init_payload) r _ v (
      if-IsValid (Registry.add r.registry (mbx_of_body body) i).0 _ _
        (on_local_registered-IsValid _ (mbx_of_body body) answered) answered)
    where
      answered :
          IsValid
            (send up
              (record r { registry = (Registry.add r.registry (mbx_of_body body) i).1 })
              (connection i)
              (make_frame
                (if (Registry.add r.registry (mbx_of_body body) i).0 then msg_ok else msg_error)
                f.src
                0
                0
                f.seq_nr
                0)
              []).1
      answered = send-IsValid _ (connection i) _ [] (add_route-IsValid r (mbx_of_body body) i lt v)

  on_data-IsValid :
      (r : Router) (i : ℕ) (f : FrameHeader) (body : List ℕ)
      → IsValid r
      → IsValid (on_data up r i f body)
  unfolding on_data answer_error
  on_data-IsValid r i f body v = elim (Option-cases (Registry.find r.registry f.dest)) [
    | inl n ↦
        rw (n, on_data)
          (if-IsValid (lookup_connection r.connections i).is_peer r _ v (
            if-IsValid (forward_to_upstream up r f body).0 _ _ forwarded
              (send-IsValid _ (connection i) _ [] forwarded)))
    | inr (d, s) ↦ rw (s, on_data) (send-IsValid r (connection d) f body v)
  ]
    where
      forwarded : IsValid (forward_to_upstream up r f body).1
      forwarded = forward_to_upstream-IsValid r f body v

  dispatch-IsValid :
      (r : Router) (i : ℕ) (f : FrameHeader) (n : ℕ) (body : List ℕ)
      → i < r.next_index
      → IsValid r
      → IsValid (dispatch up r i f n body)
  unfolding dispatch on_hello on_peer_register on_peer_delete on_mbx_delete
  dispatch-IsValid r i f n body lt v = ground (
    arith,
    v,
    on_data-IsValid r i f body v,
    on_mbx_init-IsValid r i f n body lt v,
    add_route-IsValid r (mbx_of_body body) i lt v,
    on_local_deleted-IsValid _ (mbx_of_body body) (remove_route-IsValid r (mbx_of_body body) v),
    remove_route-IsValid r (mbx_of_body body) v,
    with_connection-IsValid r i set_no_watchdog (λ c. refl) v,
    advertise_as_peer-IsValid _ i (with_connection-IsValid r i set_peer (λ c. refl) v),
  )

  -- Every frame, on a connection that there has been and with its body received or not, keeps the
  -- tables: no mailbox has two routes, every route leads to a connection that there has been, and no
  -- two connections share an index.
  pub handle_frame-IsValid :
      (r : Router) (i : ℕ) (f : FrameHeader) (received : Option (List ℕ))
      → i < r.next_index
      → IsValid r
      → IsValid (handle_frame up r i f received)
  unfolding handle_frame
  handle_frame-IsValid r i f none lt v =
      if-IsValid (ltb r.max_msg_size (body_length f)) _ _
        (with_connection-IsValid r i set_closed (λ c. refl) v)
        (if-IsValid (body_length f == 0) _ r (dispatch-IsValid r i f (body_length f) [] lt v) v)
  handle_frame-IsValid r i f (some body) lt v =
      if-IsValid (ltb r.max_msg_size (body_length f)) _ _
        (with_connection-IsValid r i set_closed (λ c. refl) v)
        (if-IsValid (body_length f == 0) _ _ (dispatch-IsValid r i f (body_length f) [] lt v)
          (dispatch-IsValid r i f (body_length f) body lt v))
