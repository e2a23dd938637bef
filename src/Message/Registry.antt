-- ===== src/Message/Registry.antt =====
-- include/corerat/messaging/message_registry.hpp: the registry of the messages that a mailbox knows.
-- What the source computes on types at compile time is computed here on lists of definitions. A
-- registry is the list that `MessageRegistry` is given, or, where the source uses `ProcessedDefs`, the
-- list `processed` of it. Parameters: the sizes, the serialiser and the deserialiser of payloads, which
-- come from a library.
pub mod Distinct
pub mod Lookup
pub mod Filter
mod Tests
use core_ra_t.Base.{
  ℕ, zero, suc, ◌+◌, ◌*◌, ◌%◌, ◌^◌, ◌≡◌, ◌≢◌, Bool, true, false, not, ◌&&◌, ◌||◌, Option, none,
  some, List, [], ◌∷◌, ◌++◌, length, ltb, leb, ◌==◌, if◌then◌else◌,
}
use core_ra_t.Message.Wire.{WireHeader}
use core_ra_t.Message.Id.{
  MessageDefinition, of_byte, id_of, subprefix, prefix_byte, max_message_id, is_reply,
  needs_auto_id, reply_message_def,
}

abbrev pub Definitions : Type 0
Definitions = List MessageDefinition

-- `ExpandReplies`: each request is followed by its reply.
unfoldable pub expand_replies : Definitions → Definitions
expand_replies [] = []
expand_replies (d ∷ ds) =
    let rest = expand_replies ds in
    elim (reply_message_def d) [ none ↦ d ∷ rest | some r ↦ d ∷ r ∷ rest ]

abbrev pub same_category : MessageDefinition → MessageDefinition → Bool
same_category d e = prefix_byte d.prefix == prefix_byte e.prefix && subprefix d == subprefix e

-- `HighestID`: the fold over what is processed, from `max_id`.
unfoldable pub highest_from : Definitions → MessageDefinition → ℕ → ℕ
highest_from [] d max_id = max_id
highest_from (p ∷ ps) d max_id =
    highest_from ps d (
      if same_category p d && not (is_reply p) && ltb max_id p.local_id then p.local_id else max_id)

abbrev pub highest_id : Definitions → MessageDefinition → ℕ
highest_id ps d = highest_from ps d 0

abbrev pub with_id : MessageDefinition → ℕ → MessageDefinition
with_id d n = record d { sub_prefix = of_byte (subprefix d); local_id = n }

-- `CurrentProcessed`, and what is asserted of it.
abbrev pub current_processed : Definitions → MessageDefinition → MessageDefinition
current_processed ps d = if needs_auto_id d then with_id d (highest_id ps d + 1) else d

abbrev pub assigned_asserts : MessageDefinition → Bool
assigned_asserts c = not (needs_auto_id c) || leb c.local_id max_message_id

unfoldable pub auto_assign_ids_process : Definitions → Definitions → Definitions
auto_assign_ids_process ps [] = []
auto_assign_ids_process ps (d ∷ ds) =
    let c = current_processed ps d in c ∷ auto_assign_ids_process (ps ++ (c ∷ [])) ds

abbrev pub auto_assign_ids : Definitions → Definitions
auto_assign_ids ds = auto_assign_ids_process [] ds

-- `ProcessedDefs`.
abbrev pub processed : Definitions → Definitions
processed ds = expand_replies (auto_assign_ids ds)

-- `CheckCollisions`.
unfoldable pub check_all_pairs : MessageDefinition → MessageDefinition → Definitions → Bool
check_all_pairs d e [] = not (id_of d == id_of e)
check_all_pairs d e (f ∷ fs) =
    not (id_of d == id_of e) && (check_all_pairs d f fs && check_all_pairs e f fs)

unfoldable pub check : Definitions → Bool
check [] = true
check (d ∷ []) = true
check (d ∷ e ∷ ds) = check_all_pairs d e ds

-- `FindMessageDef`, `get_message_id` and `IsInTuple`. For a type that is not there, where the source
-- does not compile, the result is none.
unfoldable pub find_message_def : Definitions → ℕ → Option MessageDefinition
find_message_def [] p = none
find_message_def (d ∷ ds) p = if d.payload == p then some d else find_message_def ds p

abbrev pub get_message_id : Definitions → ℕ → Option ℕ
get_message_id ds p = elim (find_message_def ds p) [ none ↦ none | some d ↦ some (id_of d) ]

unfoldable pub payload_types : Definitions → List ℕ
payload_types [] = []
payload_types (d ∷ ds) = d.payload ∷ payload_types ds

unfoldable pub is_in_tuple : ℕ → List ℕ → Bool
is_in_tuple t [] = false
is_in_tuple t (x ∷ xs) = (t == x) || is_in_tuple t xs

abbrev pub is_registered : Definitions → ℕ → Bool
is_registered ds t = is_in_tuple t (payload_types ds)

-- `TypeIndex`: the fold with its two counters, over the payload types.
unfoldable pub type_index_from : ℕ → List ℕ → ℕ → ℕ → ℕ
type_index_from t [] idx current = idx
type_index_from t (x ∷ xs) idx current =
    if t == x then type_index_from t xs current current else type_index_from t xs idx (current + 1)

abbrev pub get_type_index : Definitions → ℕ → ℕ
get_type_index ds t = type_index_from t (payload_types (processed ds)) (length ds) 0

-- `type_at`.
unfoldable pub type_at : List ℕ → ℕ → Option ℕ
type_at [] i = none
type_at (x ∷ xs) zero = some x
type_at (x ∷ xs) (suc i) = type_at xs i

-- `PayloadTypeFor` and `has_message_id`.
unfoldable pub payload_type_for : Definitions → ℕ → Option ℕ
payload_type_for [] id = none
payload_type_for (d ∷ ds) id = if id_of d == id then some d.payload else payload_type_for ds id

unfoldable pub has_message_id : Definitions → ℕ → Bool
has_message_id [] id = false
has_message_id (d ∷ ds) id = (id_of d == id) || has_message_id ds id

unfoldable pub message_ids : Definitions → List ℕ
message_ids [] = []
message_ids (d ∷ ds) = id_of d ∷ message_ids ds

-- `calc_max_size`: `std::max` over the sizes of the messages of the payload types. Of no types, which
-- C++ leaves undefined, it is 0 here.
unfoldable pub calc_max_size : (ℕ → ℕ) → List ℕ → ℕ
calc_max_size size [] = 0
calc_max_size size (t ∷ ts) =
    let rest = calc_max_size size ts in if ltb (size t) rest then rest else size t

abbrev pub max_message_size : (ℕ → ℕ) → Definitions → ℕ
max_message_size size ds = calc_max_size size (payload_types ds)

-- The bytes of a message and its header after the call: the size comes into the header once the
-- bytes are made.
unfoldable pub serialize :
    {P : Type 0}
    → (ℕ → WireHeader → P → List ℕ)
    → Definitions
    → ℕ
    → WireHeader
    → P
    → Option (List ℕ × WireHeader)
serialize sertial ds t header payload = elim (get_message_id ds t) [
  | none ↦ none
  | some id ↦
      let typed = record header { msg_type = id } in
      let result = sertial t typed payload in
      some (result, record typed { msg_size = length result % 2 ^ 32 })
]

-- `visit`: the payload type and the message that the visitor is called with, `none` for `false`.
unfoldable pub visit :
    {M : Type 0} → (ℕ → List ℕ → Option M) → Definitions → ℕ → List ℕ → Option (ℕ × M)
visit deserialize [] msg_id bytes = none
visit deserialize (d ∷ ds) msg_id bytes =
    if msg_id == id_of d
    then (elim (deserialize d.payload bytes) [ none ↦ none | some m ↦ some (d.payload, m) ])
    else visit deserialize ds msg_id bytes

-- Ids that no two definitions share.
abbrev pub IsNew : ℕ → Definitions → Type 0
IsNew k [] = Unit {0}
IsNew k (d ∷ ds) = (id_of d ≢ k) × IsNew k ds

abbrev pub IsDistinct : Definitions → Type 0
IsDistinct [] = Unit {0}
IsDistinct (d ∷ ds) = IsNew (id_of d) ds × IsDistinct ds
