-- ===== src/Message/Registry/Lookup.antt =====
-- What the registry of include/corerat/messaging/message_registry.hpp finds: by payload type, by id,
-- by position, and with the visitor.
use core_ra_t.Base.{
  ℕ, ◌+◌, ◌%◌, ◌^◌, ◌≤◌, ◌≡◌, ◌≢◌, refl, subst, arith, true, false, Option, none, some, List, [],
  ◌∷◌, ◌++◌, length, ltb, ◌==◌, Bool-cases, Option-cases, inl, inr,
}
use core_ra_t.Message.Wire.{WireHeader, IsHeader}
use core_ra_t.Message.Id.{MessageDefinition, id_of}
use core_ra_t.Message.Registry.{
  Definitions, find_message_def, get_message_id, payload_types, is_in_tuple, is_registered,
  type_index_from, payload_type_for, has_message_id, calc_max_size, max_message_size, serialize,
  visit, IsNew, IsDistinct,
}

-- The visitor is called for a known id with the type that the id has, where the bytes deserialise.
pub visit_lem :
    {M : Type 0}
    → (deserialize : ℕ → List ℕ → Option M) (ds : Definitions) (id : ℕ) (bytes : List ℕ)
    → visit deserialize ds id bytes ≡ (elim (payload_type_for ds id) [
      | none ↦ none
      | some t ↦ elim (deserialize t bytes) [ none ↦ none | some m ↦ some (t, m) ]
    ])
unfolding visit payload_type_for
visit_lem deserialize [] id bytes = refl
visit_lem deserialize (d ∷ ds) id bytes = ground (arith, visit_lem deserialize ds id bytes)

pub has_message_id_lem :
    (ds : Definitions) (id : ℕ)
    → has_message_id ds id ≡ (elim (payload_type_for ds id) [ none ↦ false | some t ↦ true ])
unfolding has_message_id payload_type_for
has_message_id_lem [] id = refl
has_message_id_lem (d ∷ ds) id = ground (arith, has_message_id_lem ds id)

find_message_def-IsNew :
    (ds : Definitions) (t k : ℕ) (d : MessageDefinition)
    → IsNew k ds
    → find_message_def ds t ≡ some d
    → id_of d ≢ k
unfolding find_message_def
find_message_def-IsNew [] t k d h e = ground (arith, e)
find_message_def-IsNew (x ∷ xs) t k d h e =
    ground
      (arith, h.0, e, λ (q : find_message_def xs t ≡ some d). find_message_def-IsNew xs t k d h.1 q)

find_message_def-payload :
    (ds : Definitions) (t : ℕ) (d : MessageDefinition)
    → find_message_def ds t ≡ some d
    → d.payload ≡ t
unfolding find_message_def
find_message_def-payload [] t d e = ground (arith, e)
find_message_def-payload (x ∷ xs) t d e =
    ground (arith, e, λ (q : find_message_def xs t ≡ some d). find_message_def-payload xs t d q)

payload_type_for-find_message_def :
    (ds : Definitions) (t : ℕ) (d : MessageDefinition)
    → IsDistinct ds
    → find_message_def ds t ≡ some d
    → payload_type_for ds (id_of d) ≡ some t
unfolding find_message_def payload_type_for
payload_type_for-find_message_def [] t d v e = ground (arith, e)
payload_type_for-find_message_def (x ∷ xs) t d v e = elim (Bool-cases (x.payload == t)) [
  | inl h ↦ ground (arith, h, e)
  | inr h ↦
      let q : find_message_def xs t ≡ some d = ground (arith, h, e) in
      ground (
        arith,
        payload_type_for-find_message_def xs t d v.1 q,
        find_message_def-IsNew xs t (id_of x) d v.0 q,
      )
]

pub find_message_def-is_registered :
    (ds : Definitions) (t : ℕ)
    → is_registered ds t ≡ true
    → (d : MessageDefinition) × (find_message_def ds t ≡ some d)
unfolding find_message_def payload_types is_in_tuple
find_message_def-is_registered [] t h = absurd (ground (arith, h))
find_message_def-is_registered (x ∷ xs) t h = elim (Bool-cases (x.payload == t)) [
  | inl e ↦ (x, ground (arith, e))
  | inr e ↦
      (let (d, q) = find_message_def-is_registered xs t (ground (arith, e, h)) in
        (d, ground (arith, e, q)))
]

-- Where no two definitions share an id, the id of a registered payload type has that type.
pub payload_type_for-get_message_id :
    (ds : Definitions) (t id : ℕ)
    → IsDistinct ds
    → get_message_id ds t ≡ some id
    → payload_type_for ds id ≡ some t
payload_type_for-get_message_id ds t id v e = elim (Option-cases (find_message_def ds t)) [
  | inl n ↦ ground (arith, n, e)
  | inr (d, q) ↦
      subst (λ k. payload_type_for ds k ≡ some t) (ground (arith, q, e))
        (payload_type_for-find_message_def ds t d v q)
]

-- The deserialiser undoes the serialiser, for headers with fields in range.
abbrev pub Inverts :
    {P : Type 0} → (ℕ → WireHeader → P → List ℕ) → (ℕ → List ℕ → Option (WireHeader × P)) → Type 0
Inverts {P} sertial deserialize =
    (t : ℕ) (h : WireHeader) (x : P) → IsHeader h → deserialize t (sertial t h x) ≡ some (h, x)

-- The header that a message of a type with an id and a size goes out with.
abbrev pub stamped : WireHeader → ℕ → ℕ → WireHeader
stamped h id size = record h { msg_type = id; msg_size = size % 2 ^ 32 }

pub serialize-registered :
    {P : Type 0}
    → (sertial : ℕ → WireHeader → P → List ℕ) (ds : Definitions) (t id : ℕ) (h : WireHeader) (x : P)
    → get_message_id ds t ≡ some id
    → let bytes = sertial t (record h { msg_type = id }) x in
      serialize sertial ds t h x ≡ some (bytes, stamped h id (length bytes))
unfolding serialize
serialize-registered sertial ds t id h x e = elim (Option-cases (find_message_def ds t)) [
  | inl n ↦ ground (arith, n, e)
  | inr (d, q) ↦
      (let same : id_of d ≡ id = ground (arith, q, e) in
        subst
          (λ k.
            serialize sertial ds t h x
            ≡ some (
              sertial t (record h { msg_type = k }) x,
              stamped h k (length (sertial t (record h { msg_type = k }) x)),
            ))
          same (ground (arith, q)))
]

-- A message of a payload type with an id is serialised with the id in its header, and the visitor,
-- given the id and the bytes, gets the payload type, that header and the payload: the ids are distinct
-- and the library inverts its own serialisation. After the call the header has the size too, which
-- the bytes do not have.
pub visit-serialize :
    {P : Type 0}
    → (sertial : ℕ → WireHeader → P → List ℕ) (deserialize : ℕ → List ℕ → Option (WireHeader × P))
      (ds : Definitions) (t id : ℕ) (h : WireHeader) (x : P)
    → Inverts sertial deserialize
    → IsDistinct ds
    → get_message_id ds t ≡ some id
    → IsHeader (record h { msg_type = id })
    → let typed = record h { msg_type = id } in
      let bytes = sertial t typed x in
      (serialize sertial ds t h x ≡ some (bytes, stamped h id (length bytes)))
      × (visit deserialize ds id bytes ≡ some (t, (typed, x)))
visit-serialize sertial deserialize ds t id h x inv v reg wf =
    let typed = record h { msg_type = id } in
    (
      serialize-registered sertial ds t id h x reg,
      ground (
        arith,
        visit_lem deserialize ds id (sertial t typed x),
        payload_type_for-get_message_id ds t id v reg,
        inv t typed x wf,
      ),
    )

type_index_from-absent :
    (t : ℕ) (ts : List ℕ) (idx current : ℕ)
    → is_in_tuple t ts ≡ false
    → type_index_from t ts idx current ≡ idx
unfolding type_index_from is_in_tuple
type_index_from-absent t [] idx current h = refl
type_index_from-absent t (x ∷ xs) idx current h =
    ground (arith, h, type_index_from-absent t xs idx (current + 1))

-- The index of a type that is there once is the number of types before it.
pub type_index_from_lem :
    (t : ℕ) (xs ys : List ℕ) (idx current : ℕ)
    → is_in_tuple t xs ≡ false
    → is_in_tuple t ys ≡ false
    → type_index_from t (xs ++ t ∷ ys) idx current ≡ current + length xs
unfolding type_index_from is_in_tuple
type_index_from_lem t [] ys idx current h h' =
    ground (arith, type_index_from-absent t ys current current h')
type_index_from_lem t (x ∷ xs) ys idx current h h' =
    ground (
      arith,
      h,
      λ (q : is_in_tuple t xs ≡ false). type_index_from_lem t xs ys idx (current + 1) q h',
    )

-- The greatest size is at least the size of every registered payload type, and it is one of theirs.
calc_max_size-bound :
    (size : ℕ → ℕ) (ts : List ℕ) (t : ℕ) → is_in_tuple t ts ≡ true → size t ≤ calc_max_size size ts
unfolding calc_max_size is_in_tuple
calc_max_size-bound size [] t h = absurd (ground (arith, h))
calc_max_size-bound size (x ∷ xs) t h = elim (Bool-cases (t == x)) [
  | inl e ↦
      let q : x ≡ t = ground (arith, e) in
      subst (λ k. size k ≤ calc_max_size size (x ∷ xs)) q (ground arith)
  | inr e ↦ ground (arith, calc_max_size-bound size xs t (ground (arith, e, h)))
]

calc_max_size-attained :
    (size : ℕ → ℕ) (t : ℕ) (ts : List ℕ)
    → (m : ℕ) × (is_in_tuple m (t ∷ ts) ≡ true) × (calc_max_size size (t ∷ ts) ≡ size m)
unfolding calc_max_size is_in_tuple
calc_max_size-attained size t [] = (t, ground arith, ground arith)
calc_max_size-attained size t (x ∷ xs) =
    let (m, h, e) = calc_max_size-attained size x xs in
    elim (Bool-cases (ltb (size t) (calc_max_size size (x ∷ xs)))) [
      | inl q ↦ (m, ground (arith, h), ground (arith, q, e))
      | inr q ↦ (t, ground arith, ground (arith, q))
    ]

-- The size of a registry's buffers is that of the largest message of its payload types: it is enough
-- for every registered type, and some registered type needs it.
pub max_message_size-IsMaximum :
    (size : ℕ → ℕ) (d : MessageDefinition) (ds : Definitions)
    → ((t : ℕ) → is_registered (d ∷ ds) t ≡ true → size t ≤ max_message_size size (d ∷ ds))
      × ((m : ℕ) × (is_registered (d ∷ ds) m ≡ true) × (max_message_size size (d ∷ ds) ≡ size m))
unfolding payload_types
max_message_size-IsMaximum size d ds = (
  λ t h. calc_max_size-bound size (d.payload ∷ payload_types ds) t h,
  calc_max_size-attained size d.payload (payload_types ds),
)
