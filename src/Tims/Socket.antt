-- ===== src/Tims/Socket.antt =====
-- include/corerat/ipc/tims/tcp_socket.hpp: the loops that send or receive exactly `len` bytes.
-- What ::send and ::recv answer is the operating system's: a list of answers, one for each call.
pub mod Owned
use core_ra_t.Base.{
  ℕ, ◌+◌, ◌<◌, ◌≤◌, ◌≡◌, refl, sym, ◌∙◌, Bool, true, false, Option, none, some, List, [], ◌∷◌, ◌++◌,
  arith, length, length-append, append_assoc, dec_lt, ℕ_discrete, subst, ◌⊎◌, inl, inr, ltb, ◌==◌,
  if◌then◌else◌,
}

-- `n <= 0`, or the number of bytes that went out.
pub data SendAnswer : Type 0 where
  send_failed : SendAnswer
  sent_bytes : ℕ → SendAnswer

-- Whether all went out, and the number of bytes that did; `none` where a further call blocks.
unfoldable pub send_all : List SendAnswer → ℕ → ℕ → Option (Bool × ℕ)
send_all [] len sent = if ltb sent len then none else some (true, sent)
send_all (send_failed ∷ rest) len sent =
    if ltb sent len then some (false, sent) else some (true, sent)
send_all (sent_bytes n ∷ rest) len sent =
    let more = send_all rest len (sent + n) in
    if ltb sent len then (if n == 0 then some (false, sent) else more) else some (true, sent)

-- `n <= 0`, or the bytes that came in.
pub data RecvAnswer : Type 0 where
  recv_failed : RecvAnswer
  got_bytes : List ℕ → RecvAnswer

-- What stands in the buffer, whole or not; `none` where a further call blocks.
unfoldable pub recv_all : List RecvAnswer → ℕ → List ℕ → Option (Bool × List ℕ)
recv_all [] len got = if ltb (length got) len then none else some (true, got)
recv_all (recv_failed ∷ rest) len got =
    if ltb (length got) len then some (false, got) else some (true, got)
recv_all (got_bytes bytes ∷ rest) len got =
    let more = recv_all rest len (got ++ bytes) in
    if ltb (length got) len
    then (if length bytes == 0 then some (false, got) else more)
    else some (true, got)

-- The system sends and receives no more than it is asked for.
abbrev pub SendsWithin : List SendAnswer → ℕ → ℕ → Type 0
SendsWithin [] len sent = Unit {0}
SendsWithin (send_failed ∷ rest) len sent = Unit {0}
SendsWithin (sent_bytes n ∷ rest) len sent =
    (sent < len → sent + n ≤ len) × SendsWithin rest len (sent + n)

-- Every byte of the answers, until a call fails.
abbrev pub bytes_of : List RecvAnswer → List ℕ
bytes_of [] = []
bytes_of (recv_failed ∷ rest) = []
bytes_of (got_bytes bytes ∷ rest) = bytes ++ bytes_of rest

abbrev pub RecvsWithin : List RecvAnswer → ℕ → ℕ → Type 0
RecvsWithin [] len got = Unit {0}
RecvsWithin (recv_failed ∷ rest) len got = Unit {0}
RecvsWithin (got_bytes bytes ∷ rest) len got =
    (got < len → got + length bytes ≤ len) × RecvsWithin rest len (got + length bytes)

-- Once the system has answered as often as there are bytes left, the send loop has ended, whatever the
-- answers are: with all bytes out, or with fewer where a call failed.
pub send_all_lem :
    (answers : List SendAnswer) (len sent : ℕ)
    → SendsWithin answers len sent
    → sent ≤ len
    → len ≤ sent + length answers
    → (send_all answers len sent ≡ some (true, len))
      ⊎ ((n : ℕ) × (n < len) × (send_all answers len sent ≡ some (false, n)))
unfolding send_all
send_all_lem [] len sent w le h = inl (ground (arith, le, h))
send_all_lem (send_failed ∷ rest) len sent w le h = elim (dec_lt sent len) [
  | yes p ↦ inr (sent, p, ground (arith, p))
  | no p ↦ inl (ground (arith, p, le))
]
send_all_lem (sent_bytes n ∷ rest) len sent w le h = elim (dec_lt sent len) [
  | no p ↦ inl (ground (arith, p, le))
  | yes p ↦ elim (ℕ_discrete n 0) [
    | yes z ↦ inr (sent, p, ground (arith, p, z))
    | no nz ↦ elim (send_all_lem rest len (sent + n) w.1 (w.0 p) (omega (arith, h, nz))) [
      | inl e ↦ inl (ground (arith, e, p, nz))
      | inr (k, lt, e) ↦ inr (k, lt, ground (arith, e, p, nz))
    ]
  ]
]

-- Once the system has answered as often as there are bytes missing, the receive loop has ended: with
-- exactly `len` bytes, those that came first, or with fewer where a call failed.
pub recv_all_lem :
    (answers : List RecvAnswer) (len : ℕ) (got : List ℕ)
    → RecvsWithin answers len (length got)
    → length got ≤ len
    → len ≤ length got + length answers
    → ((out : List ℕ) × (rest : List ℕ) × (recv_all answers len got ≡ some (true, out))
        × (length out ≡ len)
        × (got ++ bytes_of answers ≡ out ++ rest))
      ⊎ ((out : List ℕ) × (length out < len) × (recv_all answers len got ≡ some (false, out)))
unfolding recv_all
recv_all_lem [] len got w le h = inl (got, [], ground (arith, le, h), omega (arith, le, h), refl)
recv_all_lem (recv_failed ∷ rest) len got w le h = elim (dec_lt (length got) len) [
  | yes p ↦ inr (got, p, ground (arith, p))
  | no p ↦ inl (got, [], ground (arith, p, le), omega (arith, p, le), refl)
]
recv_all_lem (got_bytes bytes ∷ rest) len got w le h = elim (dec_lt (length got) len) [
  | no p ↦ inl (got, bytes ++ bytes_of rest, ground (arith, p, le), omega (arith, p, le), refl)
  | yes p ↦ elim (ℕ_discrete (length bytes) 0) [
    | yes z ↦ inr (got, p, ground (arith, p, z))
    | no nz ↦
        elim (recv_all_lem rest len (got ++ bytes)
          (subst (RecvsWithin rest len) (sym (length-append got bytes)) w.1)
          (omega (arith, w.0 p, length-append got bytes))
          (omega (arith, h, nz, length-append got bytes))) [
            | inl (out, more, e, l, b) ↦ inl (
              out,
              more,
              ground (arith, e, p, nz),
              l,
              sym (append_assoc got bytes (bytes_of rest)) ∙ b,
            )
            | inr (out, lt, e) ↦ inr (out, lt, ground (arith, e, p, nz))
          ]
  ]
]
