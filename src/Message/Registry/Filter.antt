-- ===== src/Message/Registry/Filter.antt =====
-- include/corerat/messaging/registry_utils.hpp: the parts of a registry by category, its requests and
-- its replies. The definitions are those of `MessageDefsTuple`, the list `processed`.
use core_ra_t.Base.{
  ℕ, ◌+◌, ◌<◌, ◌≤◌, ◌≡◌, refl, arith, Bool, true, false, ◌&&◌, Option, none, some, [], ◌∷◌, ◌++◌,
  length, ltb, ◌==◌, if◌then◌else◌,
}
use core_ra_t.Message.Id.{
  MessageDefinition, MessagePrefix, system, user_defined, prefix_byte, system_byte, user_byte,
  subscription, control, messages, commands, events, subprefix, has_reply, is_request,
  max_message_id, reply_message_def,
}
use core_ra_t.Message.Registry.{Definitions, expand_replies, find_message_def}

unfoldable pub filter_tuple : (MessageDefinition → Bool) → Definitions → Definitions
filter_tuple predicate [] = []
filter_tuple predicate (d ∷ ds) =
    let rest = filter_tuple predicate ds in if predicate d then d ∷ rest else rest

abbrev pub matches_prefix_of : MessagePrefix → MessageDefinition → Bool
matches_prefix_of p d = prefix_byte d.prefix == prefix_byte p

abbrev pub matches_sub_prefix : MessagePrefix → ℕ → MessageDefinition → Bool
matches_sub_prefix p sub d = prefix_byte d.prefix == prefix_byte p && subprefix d == sub

abbrev pub filter_by_prefix : MessagePrefix → Definitions → Definitions
filter_by_prefix p ds = filter_tuple (matches_prefix_of p) ds

abbrev pub filter_by_subprefix : MessagePrefix → ℕ → Definitions → Definitions
filter_by_subprefix p sub ds = filter_tuple (matches_sub_prefix p sub) ds

abbrev pub data_messages : Definitions → Definitions
data_messages ds = filter_by_subprefix user_defined (user_byte messages) ds

abbrev pub command_messages : Definitions → Definitions
command_messages ds = filter_by_subprefix user_defined (user_byte commands) ds

abbrev pub event_messages : Definitions → Definitions
event_messages ds = filter_by_subprefix user_defined (user_byte events) ds

abbrev pub subscription_messages : Definitions → Definitions
subscription_messages ds = filter_by_subprefix system (system_byte subscription) ds

abbrev pub system_control_messages : Definitions → Definitions
system_control_messages ds = filter_by_subprefix system (system_byte control) ds

-- The predicates `IsRequest` and `IsReply` of this file: the second looks at the id alone.
abbrev pub is_request_def : MessageDefinition → Bool
is_request_def d = has_reply d && is_request d

abbrev pub is_reply_def : MessageDefinition → Bool
is_reply_def d = ltb max_message_id d.local_id

abbrev pub filter_requests : Definitions → Definitions
filter_requests ds = filter_tuple is_request_def ds

abbrev pub filter_replies : Definitions → Definitions
filter_replies ds = filter_tuple is_reply_def ds

abbrev pub data_message_count : Definitions → ℕ
data_message_count ds = length (data_messages ds)

abbrev pub command_message_count : Definitions → ℕ
command_message_count ds = length (command_messages ds)

abbrev pub subscription_message_count : Definitions → ℕ
subscription_message_count ds = length (subscription_messages ds)

abbrev pub request_message_count : Definitions → ℕ
request_message_count ds = length (filter_requests ds)

abbrev pub reply_message_count : Definitions → ℕ
reply_message_count ds = length (filter_replies ds)

-- `FindMessageDefForPayload` finds the first definition of a payload type, as `FindMessageDef` does;
-- `none` is `void`.
abbrev pub has_message_def : Definitions → ℕ → Bool
has_message_def ds t = elim (find_message_def ds t) [ none ↦ false | some d ↦ true ]

-- `GetReplyPayloadFor`; where the source does not compile, for a type that is not there or that has no
-- reply, there is no payload either.
abbrev pub get_reply_payload : Definitions → ℕ → Option ℕ
get_reply_payload ds t = elim (find_message_def ds t) [
  | none ↦ none
  | some d ↦ elim (reply_message_def d) [ none ↦ none | some r ↦ some r.payload ]
]

abbrev pub is_request_payload : Definitions → ℕ → Bool
is_request_payload ds t = elim (find_message_def ds t) [ none ↦ false | some d ↦ is_request_def d ]

-- No definition is of two of the three categories that the statistics count: the counts together are
-- at most the size of the registry, as the source asserts of every registry.
pub RegistryStats-bound :
    (ds : Definitions)
    → data_message_count ds + command_message_count ds + subscription_message_count ds ≤ length ds
unfolding filter_tuple
RegistryStats-bound [] = omega (arith)
RegistryStats-bound (d ∷ ds) = ground (arith, RegistryStats-bound ds)

-- Every definition has an id: one of a request's if it has a reply, and the registry's replies are
-- those that the expansion makes.
abbrev pub IsGiven : Definitions → Type 0
IsGiven [] = Unit {0}
IsGiven (d ∷ ds) = (0 < d.local_id) × (d.local_id ≤ max_message_id) × IsGiven ds

-- In the expansion of definitions with ids of requests there are as many replies as requests, and
-- together with the definitions that have no reply they are all of it.
pub reply_message_count-expand_replies :
    (ds : Definitions)
    → IsGiven ds
    → (reply_message_count (expand_replies ds) ≡ request_message_count (expand_replies ds))
      × (request_message_count (expand_replies ds) ≡ request_message_count ds)
      × (length (expand_replies ds) ≡ length ds + request_message_count ds)
unfolding filter_tuple expand_replies
reply_message_count-expand_replies [] g = (refl, refl, omega (arith))
reply_message_count-expand_replies (d ∷ ds) g =
    let (a, b, c) = reply_message_count-expand_replies ds g.2 in
    (
      ground (arith, a, b, c, g.0, g.1),
      ground (arith, a, b, c, g.0, g.1),
      ground (arith, a, b, c, g.0, g.1),
    )

-- A filter keeps each definition that satisfies its predicate, in the order they have, and no other.
pub filter_tuple-append :
    (p : MessageDefinition → Bool) (xs ys : Definitions)
    → filter_tuple p (xs ++ ys) ≡ filter_tuple p xs ++ filter_tuple p ys
unfolding filter_tuple
filter_tuple-append p [] ys = refl
filter_tuple-append p (x ∷ xs) ys = ground (arith, filter_tuple-append p xs ys)
