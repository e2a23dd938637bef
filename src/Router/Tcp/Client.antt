-- ===== src/Router/Tcp/Client.antt =====
-- A mailbox of src/tims_backend.cpp as a client of the router of src/router/tcp_router.cpp.
use core_ra_t.Base.{
  ℕ, ◌%◌, ◌^◌, ◌<◌, ◌≤◌, ◌≡◌, refl, sym, ap, ◌∙◌, inr, Bool, true, none, some, List, [], ◌∷◌, arith,
  length,
}
use core_ra_t.Tims.Protocol.{
  FrameHeader, make_frame, body_length, u32_bytes, mbx_of_body, sizeof_mbx_init_payload,
  msg_router_mbx_init_with_reply, body_length-make_frame, mbx_of_body-u32_bytes,
}
use core_ra_t.Tims.Mailbox.{TimsMailbox, register_frame, data_header}
use core_ra_t.Tims.Mailbox.Receive.{IsMessage}
use core_ra_t.Tims.Mailbox.Send.{IsSender, data_header-IsMessage}
use core_ra_t.Router.Registry
use core_ra_t.Router.Registry.{find-add}
use core_ra_t.Router.Tcp.{Router, Link, Packet, connection, link_open, handle_frame}
use core_ra_t.Router.Tcp.Sending.{emitting}
use core_ra_t.Router.Tcp.Routing.{
  takes, Emits, delivers, undelivered, ignores, passes_on, refuses, unanswered, data_frame-Emits,
}
use core_ra_t.Router.Tcp.Registration.{registered, handle_frame-registered}

module _ (up : Link → Bool) where
  -- A registered destination whose link takes the frame is given exactly it.
  delivered :
      (r : Router) (i d : ℕ) (f : FrameHeader) (body : List ℕ) (out : List Packet)
      → Emits up r i f body out
      → Registry.find r.registry f.dest ≡ some d
      → takes up r (connection d) ≡ true
      → out ≡ record { link = connection d; header = f; body = body } ∷ []
  delivered r i d f body out (delivers e s t o) found ok = ground (arith, found, ok, s, t, o)
  delivered r i d f body out (undelivered e s t o) found ok = ground (arith, found, ok, s, t, o)
  delivered r i d f body out (ignores n p o) found ok = ground (arith, found, ok, n, p, o)
  delivered r i d f body out (passes_on n p t o) found ok = ground (arith, found, ok, n, p, t, o)
  delivered r i d f body out (refuses n p t u o) found ok = ground (arith, found, ok, n, p, t, u, o)
  delivered r i d f body out (unanswered n p t u o) found ok =
      ground (arith, found, ok, n, p, t, u, o)

  register_handled :
      (r : Router) (i : ℕ) (m : TimsMailbox)
      → m.config.mailbox_id < 2 ^ 32
      → sizeof_mbx_init_payload ≤ r.max_msg_size
      → Registry.find r.registry m.config.mailbox_id ≡ none
      → handle_frame up r i (register_frame m) (some (u32_bytes m.config.mailbox_id))
        ≡ registered up r i (register_frame m) m.config.mailbox_id
  unfolding make_frame
  register_handled r i m small room free =
      handle_frame-registered up r i (register_frame m) (some (u32_bytes m.config.mailbox_id))
        (u32_bytes m.config.mailbox_id) refl (omega (arith, len, room))
        (inr ((λ z. omega (arith, z, len)), refl)) (omega (arith, len))
        (ap (Registry.find r.registry) payload ∙ free)
      ∙ ap (registered up r i (register_frame m)) payload
    where
      len : body_length (register_frame m) ≡ sizeof_mbx_init_payload
      len =
          body_length-make_frame msg_router_mbx_init_with_reply 0 m.config.mailbox_id
            (m.config.priority % 256) 0 4 (omega arith)

      payload : mbx_of_body (u32_bytes m.config.mailbox_id) ≡ m.config.mailbox_id
      payload = mbx_of_body-u32_bytes m.config.mailbox_id small

  -- Once a mailbox has registered with the router on connection `i`, where its id was unknown and its
  -- link takes what is sent: whatever a sender's mailbox sends to it on any connection, of at least one
  -- byte and not larger than the router's maximum, leaves the router on connection `i`, with its header
  -- and its body unchanged, as the only frame sent.
  pub register-deliver :
      (r : Router) (i j : ℕ) (m a : TimsMailbox) (bytes : List ℕ)
      → m.config.mailbox_id < 2 ^ 32
      → sizeof_mbx_init_payload ≤ r.max_msg_size
      → Registry.find r.registry m.config.mailbox_id ≡ none
      → takes up r (connection i) ≡ true
      → IsSender a m.config.mailbox_id bytes
      → length bytes ≤ r.max_msg_size
      → (q : Router) × (q
          ≡ handle_frame up r i (register_frame m) (some (u32_bytes m.config.mailbox_id)))
        × (handle_frame up q j (data_header a m.config.mailbox_id (length bytes)) (some bytes)
            ≡ emitting q (
                record {
                  link = connection i;
                  header = data_header a m.config.mailbox_id (length bytes);
                  body = bytes;
                }
                ∷ []))
  unfolding make_frame link_open Registry.find
  register-deliver r i j m a bytes small room free taken sender fits = (
    q,
    sym (register_handled r i m small room free),
    sent.2 ∙ ap (emitting q) (delivered q j i header bytes sent.0 sent.1 (ground arith) taken),
  )
    where
      q : Router
      q = registered up r i (register_frame m) m.config.mailbox_id

      header : FrameHeader
      header = data_header a m.config.mailbox_id (length bytes)

      fields : IsMessage header bytes (length bytes)
      fields = data_header-IsMessage a m.config.mailbox_id bytes (length bytes) sender (omega arith)

      sent :
          (out : List Packet) × Emits up q j header bytes out
          × (handle_frame up q j header (some bytes) ≡ emitting q out)
      sent =
          data_frame-Emits up q j header (some bytes) bytes refl (omega (arith, fits, fields.3))
            (inr ((λ z. omega (arith, z, fields.3, sender.2)), refl))
