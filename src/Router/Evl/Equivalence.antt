-- ===== src/Router/Evl/Equivalence.antt =====
-- The EVL router on a host without devices, against the TCP router.
use core_ra_t.Base.{
  ℕ, ◌≤◌, ◌≡◌, ◌≢◌, ap, ◌∙◌, Bool, true, false, not, ◌&&◌, Option, none, some, List, [], ◌∷◌, ◌++◌,
  arith, Option-cases, inl, inr,
}
use core_ra_t.Tims.Protocol.{
  FrameHeader, make_frame, body_length, same_type, mbx_of_body, sizeof_mbx_init_payload, msg_ok,
  msg_error, msg_router_mbx_init_with_reply, msg_router_disable_watchdog,
}
use core_ra_t.Router.Tcp as Tcp
use core_ra_t.Router.Tcp.{
  Router, Connection, Link, Packet, connection, upstream, system_route, link_open,
  lookup_connection, insert_local,
}
use core_ra_t.Router.Tcp.Sending.{
  emitting, if_taken, to_peers, register_packet, emitting-emitting, send-emitting,
  on_local_registered-emitting,
}
use core_ra_t.Router.Tcp.Registration.{reply_packet, on_mbx_init-free, on_mbx_init-taken}
use core_ra_t.Router.Evl.Routes
use core_ra_t.Router.Evl.Routes.{EvlRoutes, MailboxEntry, tcp, xbuf, peer}
use core_ra_t.Router.Evl.{
  EvlRouter, with_net, forward_to_upstream, answer, register, on_hello, on_peer_register,
  on_peer_delete, on_mbx_init, on_mbx_delete, on_data, dispatch, handle_frame, on_local_registered,
}
use core_ra_t.Router.Evl.Erase.{
  con_of, erase, erase_routes, NoXbuf, find-erase, add-erase, remove-erase, find-NoXbuf,
  to_peers-registry, forward-erase, advertise_as_peer-erase, on_local_registered-erase,
  on_local_deleted-erase, forward_to_upstream-erase,
}

-- A frame that both routers handle alike: neither a registration nor the watchdog's.
abbrev pub is_shared_type : FrameHeader → Bool
is_shared_type f =
    not (same_type f.type msg_router_disable_watchdog)
    && not (same_type f.type msg_router_mbx_init_with_reply)

-- The TCP router's state once connection `i` has registered the mailbox.
abbrev pub joined : EvlRouter → ℕ → ℕ → Router
joined e i mbx = record (erase e) {
  registry = (mbx, i) ∷ erase_routes e.routes;
  local_mailboxes = insert_local e.net.local_mailboxes mbx;
}

module _ (up : Link → Bool) where
  on_hello-erase : (e : EvlRouter) (i : ℕ) → erase (on_hello up e i) ≡ Tcp.on_hello up (erase e) i
  unfolding on_hello Tcp.on_hello Tcp.with_connection
  on_hello-erase e i =
      ground (
        arith,
        advertise_as_peer-erase up (with_net e (Tcp.with_connection e.net i Tcp.set_peer)) i,
      )

  on_peer_register-erase :
      (e : EvlRouter) (i n : ℕ) (body : List ℕ)
      → erase (on_peer_register up e i n body) ≡ Tcp.on_peer_register up (erase e) i n body
  unfolding on_peer_register Tcp.on_peer_register
  on_peer_register-erase e i n body = ground (arith, add-erase e.routes (mbx_of_body body) (peer i))

  on_peer_delete-erase :
      (e : EvlRouter) (i n : ℕ) (body : List ℕ)
      → erase (on_peer_delete up e i n body) ≡ Tcp.on_peer_delete up (erase e) i n body
  unfolding on_peer_delete Tcp.on_peer_delete
  on_peer_delete-erase e i n body = ground (arith, remove-erase e.routes (mbx_of_body body))

  on_mbx_delete-erase :
      (e : EvlRouter) (i n : ℕ) (body : List ℕ)
      → erase (on_mbx_delete up e i n body) ≡ Tcp.on_mbx_delete up (erase e) i n body
  unfolding on_mbx_delete Tcp.on_mbx_delete
  on_mbx_delete-erase e i n body = ground (
    arith,
    on_local_deleted-erase up (record e { routes = Routes.remove e.routes (mbx_of_body body) })
        (mbx_of_body body),
    ap (λ x. Tcp.on_local_deleted up (record e.net { registry = x }) (mbx_of_body body))
        (remove-erase e.routes (mbx_of_body body)),
  )

  answer-erase :
      (e : EvlRouter) (i : ℕ) (f : FrameHeader)
      → erase (answer up e i f false) ≡ Tcp.answer_error up (erase e) i f
  unfolding answer Tcp.answer_error
  answer-erase e i f = forward-erase up e i (make_frame msg_error f.src 0 0 f.seq_nr 0) []

  module _ (opens : ℕ → Bool) (writes : ℕ → List ℕ → Bool) where
    on_data-erase :
        (e : EvlRouter) (i : ℕ) (f : FrameHeader) (body : List ℕ)
        → NoXbuf e.routes
        → erase (on_data up opens writes e i f body) ≡ Tcp.on_data up (erase e) i f body
    unfolding on_data Tcp.on_data
    on_data-erase e i f body clean = elim (Option-cases (Routes.find e.routes f.dest)) [
      | inl n ↦ ground (
        arith,
        n,
        find-erase e.routes f.dest,
        forward_to_upstream-erase up e f body,
        answer-erase (forward_to_upstream up e f body).1 i f,
        ap (λ q. Tcp.answer_error up q i f) (forward_to_upstream-erase up e f body).1,
      )
      | inr (x, s) ↦ known x s
    ]
      where
        known :
            (x : MailboxEntry)
            → Routes.find e.routes f.dest ≡ some x
            → erase (on_data up opens writes e i f body) ≡ Tcp.on_data up (erase e) i f body
        known (tcp d) s = ground (arith, s, find-erase e.routes f.dest, forward-erase up e d f body)
        known (peer d) s =
            ground (arith, s, find-erase e.routes f.dest, forward-erase up e d f body)
        known (xbuf m) s = absurd (find-NoXbuf e.routes f.dest m clean s)

    pub dispatch-erase :
        (e : EvlRouter) (i : ℕ) (f : FrameHeader) (n : ℕ) (body : List ℕ)
        → NoXbuf e.routes
        → is_shared_type f ≡ true
        → erase (dispatch up opens writes e i f n body) ≡ Tcp.dispatch up (erase e) i f n body
    unfolding dispatch Tcp.dispatch
    dispatch-erase e i f n body clean shared = ground (
      arith,
      shared,
      on_hello-erase e i,
      on_peer_register-erase e i n body,
      on_peer_delete-erase e i n body,
      on_mbx_delete-erase e i n body,
      on_data-erase e i f body clean,
    )

    -- Without an entry for a device, and for every frame but a registration and the watchdog's, received
    -- or not: the EVL router does what the TCP router does with the kinds of its entries forgotten. It
    -- sends the same frames in the same order and its tables stay the same.
    pub handle_frame-erase :
        (e : EvlRouter) (i : ℕ) (f : FrameHeader) (received : Option (List ℕ))
        → NoXbuf e.routes
        → is_shared_type f ≡ true
        → erase (handle_frame up opens writes e i f received)
          ≡ Tcp.handle_frame up (erase e) i f received
    unfolding handle_frame Tcp.handle_frame Tcp.with_connection
    handle_frame-erase e i f none clean shared =
        ground (arith, dispatch-erase e i f (body_length f) [] clean shared)
    handle_frame-erase e i f (some body) clean shared = ground (
      arith,
      dispatch-erase e i f (body_length f) [] clean shared,
      dispatch-erase e i f (body_length f) body clean shared,
    )

    -- A registration request on connection `i`, on a host without a device for the mailbox: the tables
    -- are those of the TCP router, and the same frames leave the router in another order. The TCP router
    -- answers the client first and then tells the peers, the EVL router tells the peers first. Where
    -- the mailbox is known, both answer MSG_ERROR alone.
    pub on_mbx_init-erase :
        (e : EvlRouter) (i : ℕ) (f : FrameHeader) (n : ℕ) (body : List ℕ)
        → opens (mbx_of_body body) ≡ false
        → sizeof_mbx_init_payload ≤ n
        → (Routes.find e.routes (mbx_of_body body) ≢ none
            → erase (on_mbx_init up opens writes e i f n body)
              ≡ Tcp.on_mbx_init up (erase e) i f n body)
          × (Routes.find e.routes (mbx_of_body body) ≡ none
              → (Tcp.on_mbx_init up (erase e) i f n body
                  ≡ emitting (joined e i (mbx_of_body body)) (
                      if_taken up (erase e) (reply_packet i true f)
                      ++ to_peers up
                          (erase e)
                          e.net.connections
                          (λ p. register_packet p (mbx_of_body body))))
                × (erase (on_mbx_init up opens writes e i f n body)
                    ≡ emitting (joined e i (mbx_of_body body)) (
                        to_peers up
                          (erase e)
                          e.net.connections
                          (λ p. register_packet p (mbx_of_body body))
                        ++ if_taken up (erase e) (reply_packet i true f))))
    unfolding on_mbx_init register answer Routes.add link_open
    on_mbx_init-erase e i f n body device big = (
      λ known. taken_case known,
      λ free. (
        on_mbx_init-free up (erase e) i f n body big
            (find-erase e.routes mbx ∙ ground (arith, free)),
        ground (arith, device, big, free)
            ∙ forward-erase up (on_local_registered up (added e) mbx) i
                (make_frame msg_ok f.src 0 0 f.seq_nr 0) []
            ∙ ap (λ q. (Tcp.send up q (connection i) (make_frame msg_ok f.src 0 0 f.seq_nr 0) []).1)
                (on_local_registered-erase up (added e) mbx
                  ∙ on_local_registered-emitting up (erase (added e)) mbx)
            ∙ send-emitting up _ (connection i) (make_frame msg_ok f.src 0 0 f.seq_nr 0) []
            ∙ emitting-emitting (joined e i mbx) (told (erase (added e)))
                (if_taken up (erase e) (reply_packet i true f))
            ∙ ap
                (λ out.
                  emitting (joined e i mbx) (out ++ if_taken up (erase e) (reply_packet i true f)))
                (to_peers-registry up (erase e) ((mbx, i) ∷ erase_routes e.routes) e.net.connections
                  (λ p. register_packet p mbx)),
      ),
    )
      where
        mbx : ℕ
        mbx = mbx_of_body body

        told : Router → List Packet
        told r = to_peers up r e.net.connections (λ p. register_packet p (mbx_of_body body))

        added : EvlRouter → EvlRouter
        added e = record e { routes = (mbx_of_body body, tcp i) ∷ e.routes }

        taken_case :
            Routes.find e.routes (mbx_of_body body) ≢ none
            → erase (on_mbx_init up opens writes e i f n body)
              ≡ Tcp.on_mbx_init up (erase e) i f n body
        taken_case known = elim (Option-cases (Routes.find e.routes (mbx_of_body body))) [
          | inl n ↦ absurd (known n)
          | inr (x, s) ↦ ground (
            arith,
            device,
            big,
            s,
            forward-erase up e i (make_frame msg_error f.src 0 0 f.seq_nr 0) [],
            send-emitting up (erase e) (connection i) (make_frame msg_error f.src 0 0 f.seq_nr 0)
                [],
            on_mbx_init-taken up (erase e) i f n body (con_of x) big
                (find-erase e.routes (mbx_of_body body) ∙ ground (arith, s)),
          )
        ]
