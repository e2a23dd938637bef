-- ===== src/Router/Tcp/Routing.antt =====
-- What becomes of a data frame.
use core_ra_t.Base.{
  ℕ, ◌≤◌, ◌≡◌, ◌≢◌, refl, sym, ap, ◌∙◌, ◌⊎◌, inl, inr, Bool, true, false, ◌&&◌, ◌||◌, Option, none,
  some, List, [], ◌∷◌, ◌++◌, append-nil, arith, Bool-cases, Option-cases,
}
use core_ra_t.Base.Int.{ℤ}
use core_ra_t.Tims.Protocol.{
  FrameHeader, make_frame, body_length, same_type, msg_error, msg_router_mbx_init_with_reply,
  msg_router_mbx_delete, msg_router_disable_watchdog, msg_router_peer_hello,
  msg_router_peer_register, msg_router_peer_delete,
}
use core_ra_t.Router.Registry
use core_ra_t.Router.Tcp.{
  Router, Link, Packet, connection, upstream, system_route, lookup_connection, link_open, send,
  system_index, system_id_of, forward_to_upstream, answer_error, on_data, dispatch, handle_frame,
}

-- A type that `handle_frame` leaves to its default case.
abbrev pub is_router_type : ℤ → Bool
is_router_type t =
    same_type t msg_router_peer_hello
    || same_type t msg_router_peer_register
    || same_type t msg_router_peer_delete
    || same_type t msg_router_disable_watchdog
    || same_type t msg_router_mbx_init_with_reply
    || same_type t msg_router_mbx_delete

-- The body of the frame is received.
abbrev pub Received : FrameHeader → Option (List ℕ) → List ℕ → Type 0
Received f received body =
    ((body_length f ≡ 0) × (body ≡ [])) ⊎ ((body_length f ≢ 0) × (received ≡ some body))

-- The link that an unknown destination is sent to.
abbrev pub fallback : Router → FrameHeader → Link
fallback r f = elim (system_index r.system_connections (system_id_of f.dest) 0) [
  | some k ↦ system_route k
  | none ↦ upstream
]

module _ (up : Link → Bool) where
  -- The link takes what is sent on it.
  abbrev pub takes : Router → Link → Bool
  takes r l = link_open r l && up l

  -- The frames that a data frame on connection `i` makes the router send.
  pub data Emits (r : Router) (i : ℕ) (f : FrameHeader) (body : List ℕ) (out : List Packet)
      : Type 0 where
    delivers :
        (d : ℕ)
        → Registry.find r.registry f.dest ≡ some d
        → takes r (connection d) ≡ true
        → out ≡ record { link = connection d; header = f; body = body } ∷ []
        → Emits r i f body out
    undelivered :
        (d : ℕ)
        → Registry.find r.registry f.dest ≡ some d
        → takes r (connection d) ≡ false
        → out ≡ []
        → Emits r i f body out
    ignores :
        Registry.find r.registry f.dest ≡ none
        → (lookup_connection r.connections i).is_peer ≡ true
        → out ≡ []
        → Emits r i f body out
    passes_on :
        Registry.find r.registry f.dest ≡ none
        → (lookup_connection r.connections i).is_peer ≡ false
        → takes r (fallback r f) ≡ true
        → out ≡ record { link = fallback r f; header = f; body = body } ∷ []
        → Emits r i f body out
    refuses :
        Registry.find r.registry f.dest ≡ none
        → (lookup_connection r.connections i).is_peer ≡ false
        → takes r (fallback r f) ≡ false
        → takes r (connection i) ≡ true
        → out
          ≡ record {
            link = connection i;
            header = make_frame msg_error f.src 0 0 f.seq_nr 0;
            body = [];
          }
            ∷ []
        → Emits r i f body out
    unanswered :
        Registry.find r.registry f.dest ≡ none
        → (lookup_connection r.connections i).is_peer ≡ false
        → takes r (fallback r f) ≡ false
        → takes r (connection i) ≡ false
        → out ≡ []
        → Emits r i f body out

  abbrev emitting : Router → List Packet → Router
  emitting r out = record r { sent = r.sent ++ out }

  send-taken :
      (r : Router) (l : Link) (h : FrameHeader) (body : List ℕ)
      → takes r l ≡ true
      → send up r l h body ≡ (true, emitting r (record { link = l; header = h; body = body } ∷ []))
  unfolding send
  send-taken r l h body e = ground (arith, e)

  send-lost :
      (r : Router) (l : Link) (h : FrameHeader) (body : List ℕ)
      → takes r l ≡ false
      → send up r l h body ≡ (false, r)
  unfolding send
  send-lost r l h body e = ground (arith, e)

  emits_nothing : (r : Router) → r ≡ emitting r []
  emits_nothing r = ap (λ p. record r { sent = p }) (sym (append-nil r.sent))

  forward_to_upstream-send :
      (r : Router) (f : FrameHeader) (body : List ℕ)
      → forward_to_upstream up r f body ≡ send up r (fallback r f) f body
  unfolding forward_to_upstream
  forward_to_upstream-send r f body =
      elim (Option-cases (system_index r.system_connections (system_id_of f.dest) 0)) [
        | inl e ↦ ground (arith, e)
        | inr (k, e) ↦ ground (arith, e)
      ]

  on_data-Emits :
      (r : Router) (i : ℕ) (f : FrameHeader) (body : List ℕ)
      → (out : List Packet) × Emits r i f body out × (on_data up r i f body ≡ emitting r out)
  unfolding on_data answer_error
  on_data-Emits r i f body = elim (Option-cases (Registry.find r.registry f.dest)) [
    | inr (d, e) ↦ elim (Bool-cases (takes r (connection d))) [
      | inl t ↦ (_, delivers d e t refl, ground (arith, e, send-taken r (connection d) f body t))
      | inr t ↦ (
        [],
        undelivered d e t refl,
        ground (arith, e, send-lost r (connection d) f body t) ∙ emits_nothing r,
      )
    ]
    | inl e ↦ elim (Bool-cases (lookup_connection r.connections i).is_peer) [
      | inl p ↦ ([], ignores e p refl, ground (arith, e, p) ∙ emits_nothing r)
      | inr p ↦ elim (Bool-cases (takes r (fallback r f))) [
        | inl t ↦ (
          _,
          passes_on e p t refl,
          ground (
            arith,
            e,
            p,
            forward_to_upstream-send r f body,
            send-taken r (fallback r f) f body t,
          ),
        )
        | inr t ↦ elim (Bool-cases (takes r (connection i))) [
          | inl s ↦ (
            _,
            refuses e p t s refl,
            ground (
              arith,
              e,
              p,
              forward_to_upstream-send r f body,
              send-lost r (fallback r f) f body t,
              send-taken r (connection i) (make_frame msg_error f.src 0 0 f.seq_nr 0) [] s,
            ),
          )
          | inr s ↦ (
            [],
            unanswered e p t s refl,
            ground (
              arith,
              e,
              p,
              forward_to_upstream-send r f body,
              send-lost r (fallback r f) f body t,
              send-lost r (connection i) (make_frame msg_error f.src 0 0 f.seq_nr 0) [] s,
            )
                ∙ emits_nothing r,
          )
        ]
      ]
    ]
  ]

  -- A frame that is not too large and whose body is received is dispatched.
  pub handle_frame-dispatch :
      (r : Router) (i : ℕ) (f : FrameHeader) (received : Option (List ℕ)) (body : List ℕ)
      → body_length f ≤ r.max_msg_size
      → Received f received body
      → handle_frame up r i f received ≡ dispatch up r i f (body_length f) body
  unfolding handle_frame
  handle_frame-dispatch r i f received body fits (inl (z, e)) =
      ground (arith, fits, z, ap (dispatch up r i f (body_length f)) e)
  handle_frame-dispatch r i f received body fits (inr (nz, e)) = ground (arith, fits, nz, e)

  dispatch-on_data :
      (r : Router) (i : ℕ) (f : FrameHeader) (n : ℕ) (body : List ℕ)
      → is_router_type f.type ≡ false
      → dispatch up r i f n body ≡ on_data up r i f body
  unfolding dispatch
  dispatch-on_data r i f n body h = ground (arith, h)

  pub data_frame-Emits :
      (r : Router) (i : ℕ) (f : FrameHeader) (received : Option (List ℕ)) (body : List ℕ)
      → is_router_type f.type ≡ false
      → body_length f ≤ r.max_msg_size
      → Received f received body
      → (out : List Packet) × Emits r i f body out
        × (handle_frame up r i f received ≡ emitting r out)
  data_frame-Emits r i f received body t fits got =
      let (out, em, e) = on_data-Emits r i f body in
      (
        out,
        em,
        handle_frame-dispatch r i f received body fits got
            ∙ dispatch-on_data r i f (body_length f) body t
            ∙ e,
      )
