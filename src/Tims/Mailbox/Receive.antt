-- ===== src/Tims/Mailbox/Receive.antt =====
-- What a mailbox receives from the stream of its router.
use core_ra_t.Base.{
  ℕ, suc, ◌+◌, ◌<◌, ◌≤◌, ◌≡◌, refl, sym, ap, ◌∙◌, ◌⊎◌, inl, inr, Bool, true, false, some, List, [],
  ◌∷◌, ◌++◌, arith, length, take, drop, replicate, append_assoc, append-nil, length-append,
  if◌then◌else◌, Bool-cases,
}
use core_ra_t.Tims.Protocol.{
  FrameHeader, IsFrame, make_frame, same_type, frame_bytes, body_length, sizeof_frame_header,
  msg_ok, msg_router_get_status, frame_of_bytes-frame_bytes,
}
use core_ra_t.Tims.Mailbox.{
  TimsMailbox, always, send_all, recv_all, recv_frame, too_large, received, waiting, metadata_of,
  swap_header, receive_loop, receive_raw,
}

pub take-append : (xs ys : List ℕ) → take (length xs) (xs ++ ys) ≡ xs
take-append [] ys = refl
take-append (x ∷ xs) ys = ap (λ t. x ∷ t) (take-append xs ys)

pub drop-append : (xs ys : List ℕ) → drop (length xs) (xs ++ ys) ≡ ys
drop-append [] ys = refl
drop-append (x ∷ xs) ys = drop-append xs ys

pub recv_all-append :
    (m : TimsMailbox) (xs rest : List ℕ)
    → m.incoming ≡ xs ++ rest
    → recv_all m (length xs) ≡ some (xs, record m { incoming = rest })
unfolding recv_all
recv_all-append m xs rest e =
    ground (arith, e, length-append xs rest, ap length e, take-append xs rest, drop-append xs rest)

length-frame_bytes : (f : FrameHeader) → length (frame_bytes f) ≡ sizeof_frame_header
unfolding frame_bytes
length-frame_bytes f = refl

-- A header at the start of the stream is read.
pub recv_frame-frame_bytes :
    (m : TimsMailbox) (f : FrameHeader) (rest : List ℕ)
    → IsFrame f
    → m.incoming ≡ frame_bytes f ++ rest
    → recv_frame m ≡ some (f, record m { incoming = rest })
unfolding recv_frame
recv_frame-frame_bytes m f rest v e = ground (
  arith,
  recv_all-append m (frame_bytes f) rest e,
  frame_of_bytes-frame_bytes f v,
  length-frame_bytes f,
)

-- A frame that a mailbox passes over: a status request, or one without a body.
abbrev pub IsIdle : FrameHeader → Type 0
IsIdle f =
    IsFrame f × ((same_type f.type msg_router_get_status ≡ true) ⊎ (f.msglen ≤ sizeof_frame_header))

abbrev pub AllIdle : List FrameHeader → Type 0
AllIdle [] = Unit {0}
AllIdle (f ∷ fs) = IsIdle f × AllIdle fs

abbrev pub stream_of : List FrameHeader → List ℕ
stream_of [] = []
stream_of (f ∷ fs) = frame_bytes f ++ stream_of fs

-- What a mailbox answers to such a frame.
abbrev pub status_reply : TimsMailbox → FrameHeader → List ℕ
status_reply m f =
    if same_type f.type msg_router_get_status
    then frame_bytes (make_frame msg_ok f.src m.config.mailbox_id 0 0 0)
    else []

abbrev pub status_replies : TimsMailbox → List FrameHeader → List ℕ
status_replies m [] = []
status_replies m (f ∷ fs) = status_reply m f ++ status_replies m fs

-- A frame with a body that stands whole in the stream and fits the buffer.
abbrev pub IsMessage : FrameHeader → List ℕ → ℕ → Type 0
IsMessage f body n =
    IsFrame f
    × (same_type f.type msg_router_get_status ≡ false)
    × (0 < length body)
    × (body_length f ≡ length body)
    × (length body ≤ n)

pub msglen_of_body : (f : FrameHeader) → 0 < body_length f → sizeof_frame_header < f.msglen
unfolding body_length
msglen_of_body f h = ground (arith, h)

module _ (swap : Bool → List ℕ → List ℕ) where
  pub receive_message :
      (taken : TimsMailbox → Bool) (polls : List Bool) (m : TimsMailbox) (n : ℕ) (f : FrameHeader)
      (body rest : List ℕ)
      → IsMessage f body n
      → m.incoming ≡ frame_bytes f ++ (body ++ rest)
      → receive_loop swap taken (true ∷ polls) m n ≡ (
        received (metadata_of f) (swap_header swap f body),
        record m { incoming = rest; messages_received = m.messages_received + 1 },
      )
  unfolding receive_loop
  receive_message taken polls m n f body rest (v, data_type, nonempty, len, fits) e = ground (
    arith,
    data_type,
    nonempty,
    len,
    fits,
    recv_frame-frame_bytes m f (body ++ rest) v e,
    recv_all-append (record m { incoming = body ++ rest }) body rest refl,
    msglen_of_body f (omega (arith, nonempty, len)),
  )

  receive_idle :
      (polls : List Bool) (m : TimsMailbox) (n : ℕ) (f : FrameHeader) (rest : List ℕ)
      → IsIdle f
      → m.incoming ≡ frame_bytes f ++ rest
      → receive_loop swap always (true ∷ polls) m n
        ≡ receive_loop swap always polls
            (record m { incoming = rest; outgoing = m.outgoing ++ status_reply m f })
            n
  unfolding receive_loop send_all
  receive_idle polls m n f rest (v, inl status) e =
      ground (arith, status, recv_frame-frame_bytes m f rest v e)
  receive_idle polls m n f rest (v, inr empty) e =
      elim (Bool-cases (same_type f.type msg_router_get_status)) [
        | inl status ↦ ground (arith, status, recv_frame-frame_bytes m f rest v e)
        | inr other ↦
            ground (arith, other, empty, recv_frame-frame_bytes m f rest v e, append-nil m.outgoing)
      ]

  receive_after_idle :
      (fs : List FrameHeader) (m : TimsMailbox) (n : ℕ) (f : FrameHeader) (body rest : List ℕ)
      → AllIdle fs
      → IsMessage f body n
      → m.incoming ≡ stream_of fs ++ (frame_bytes f ++ (body ++ rest))
      → receive_loop swap always (replicate (suc (length fs)) true) m n ≡ (
        received (metadata_of f) (swap_header swap f body),
        record m {
          incoming = rest;
          outgoing = m.outgoing ++ status_replies m fs;
          messages_received = m.messages_received + 1;
        },
      )
  receive_after_idle [] m n f body rest idle message e =
      receive_message always [] m n f body rest message e
      ∙ ap
          (λ out. (
            received (metadata_of f) (swap_header swap f body),
            record m {
              incoming = rest;
              messages_received = m.messages_received + 1;
              outgoing = out;
            },
          ))
          (sym (append-nil m.outgoing))
  receive_after_idle (g ∷ fs) m n f body rest (idle, all) message e =
      receive_idle (replicate (suc (length fs)) true) m n g
        (stream_of fs ++ (frame_bytes f ++ (body ++ rest))) idle
        (e ∙ append_assoc (frame_bytes g) (stream_of fs) (frame_bytes f ++ (body ++ rest)))
      ∙ receive_after_idle fs _ n f body rest all message refl
      ∙ ap
          (λ out. (
            received (metadata_of f) (swap_header swap f body),
            record m {
              incoming = rest;
              messages_received = m.messages_received + 1;
              outgoing = out;
            },
          ))
          (append_assoc m.outgoing (status_reply m g) (status_replies m fs))

  -- A mailbox that is connected to its router, whose stream holds any number of status requests and of
  -- frames without a body, and then a message that fits the buffer: with a poll that finds each frame,
  -- the receive answers every status request, in order, and hands out the message with the metadata
  -- of its header; what follows in the stream stays there.
  pub receive_lem :
      (fs : List FrameHeader) (m : TimsMailbox) (n : ℕ) (f : FrameHeader) (body rest : List ℕ)
      → m.is_initialized ≡ true
      → m.is_open ≡ true
      → AllIdle fs
      → IsMessage f body n
      → m.incoming ≡ stream_of fs ++ (frame_bytes f ++ (body ++ rest))
      → receive_raw swap always (replicate (suc (length fs)) true) m n ≡ (
        received (metadata_of f) (swap_header swap f body),
        record m {
          incoming = rest;
          outgoing = m.outgoing ++ status_replies m fs;
          messages_received = m.messages_received + 1;
        },
      )
  unfolding receive_raw
  receive_lem fs m n f body rest init open_ all message e =
      ground (arith, init, open_, receive_after_idle fs m n f body rest all message e)

  -- A message larger than the buffer is refused with its header read and its body left in the stream,
  -- and the next receive takes the first bytes of the body for a header: of a body that starts with
  -- the bytes of a status request, it answers that request to the address that the body names.
  pub receive_too_large :
      (polls : List Bool) (m : TimsMailbox) (n : ℕ) (f g : FrameHeader) (payload : List ℕ)
      → m.is_initialized ≡ true
      → m.is_open ≡ true
      → IsFrame f
      → same_type f.type msg_router_get_status ≡ false
      → n < body_length f
      → IsFrame g
      → same_type g.type msg_router_get_status ≡ true
      → m.incoming ≡ frame_bytes f ++ (frame_bytes g ++ payload)
      → (receive_raw swap always (true ∷ polls) m n
          ≡ (too_large, record m { incoming = frame_bytes g ++ payload }))
        × (receive_raw swap always (true ∷ []) (record m { incoming = frame_bytes g ++ payload }) n
            ≡ (
              waiting,
              record m {
                incoming = payload;
                outgoing =
                    m.outgoing ++ frame_bytes (make_frame msg_ok g.src m.config.mailbox_id 0 0 0);
              },
            ))
  unfolding receive_raw receive_loop send_all
  receive_too_large polls m n f g payload init open_ vf data_type big vg status e = (
    ground (
      arith,
      init,
      open_,
      data_type,
      big,
      recv_frame-frame_bytes m f (frame_bytes g ++ payload) vf e,
      msglen_of_body f (omega (arith, big)),
    ),
    ground (
      arith,
      init,
      open_,
      status,
      recv_frame-frame_bytes (record m { incoming = frame_bytes g ++ payload }) g payload vg refl,
    ),
  )
