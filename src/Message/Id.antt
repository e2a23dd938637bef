-- ===== src/Message/Id.antt =====
-- include/corerat/messaging/message_id.hpp: message ids and the definitions of messages.
-- A payload type is known by a number, and `is_same` on payload types is equality of numbers.
use core_ra_t.Base.{
  ℕ, ◌+◌, ◌*◌, ◌%◌, ◌^◌, ◌-◌, ◌<◌, ◌≤◌, ◌≡◌, arith, Bool, true, false, not, ◌&&◌, ◌||◌, Option,
  none, some, leb, ◌==◌, if◌then◌else◌,
}

pub data MessagePrefix : Type 0 where
  system : MessagePrefix
  user_defined : MessagePrefix

pub data SystemSubPrefix : Type 0 where
  subscription : SystemSubPrefix
  control : SystemSubPrefix
  reserved : SystemSubPrefix

pub data UserSubPrefix : Type 0 where
  messages : UserSubPrefix
  commands : UserSubPrefix
  events : UserSubPrefix
  get_data : UserSubPrefix
  get_next_data : UserSubPrefix
  custom : UserSubPrefix

abbrev pub prefix_byte : MessagePrefix → ℕ
prefix_byte system = 0
prefix_byte user_defined = 1

abbrev pub system_byte : SystemSubPrefix → ℕ
system_byte subscription = 0
system_byte control = 1
system_byte reserved = 255

abbrev pub user_byte : UserSubPrefix → ℕ
user_byte messages = 0
user_byte commands = 1
user_byte events = 2
user_byte get_data = 3
user_byte get_next_data = 4
user_byte custom = 5

-- The three parts have 8, 8 and 16 bits and none shares a bit with another, so `|` adds them.
unfoldable pub make_message_id : ℕ → ℕ → ℕ → ℕ
make_message_id prefix subprefix id = prefix * 2 ^ 24 + subprefix * 2 ^ 16 + id

abbrev pub system_message_id : SystemSubPrefix → ℕ → ℕ
system_message_id subprefix id = make_message_id (prefix_byte system) (system_byte subprefix) id

abbrev pub user_message_id : UserSubPrefix → ℕ → ℕ
user_message_id subprefix id = make_message_id (prefix_byte user_defined) (user_byte subprefix) id

-- The types that a definition's subprefix argument may have.
pub data SubPrefix : Type 0 where
  of_byte : ℕ → SubPrefix
  of_system : SystemSubPrefix → SubPrefix
  of_user : UserSubPrefix → SubPrefix
  of_nullptr : SubPrefix

-- `reply` is the payload of the reply, `none` for `void`.
pub record MessageDefinition : Type 0 where
  pub payload : ℕ
  pub prefix : MessagePrefix
  pub sub_prefix : SubPrefix
  pub local_id : ℕ
  pub reply : Option ℕ

abbrev pub max_message_id : ℕ
max_message_id = 0x7FFF

unfoldable pub subprefix_byte : MessagePrefix → SubPrefix → ℕ
subprefix_byte p (of_byte b) = b
subprefix_byte system (of_system s) = system_byte s
subprefix_byte system (of_user u) = system_byte reserved
subprefix_byte system of_nullptr = system_byte reserved
subprefix_byte user_defined (of_system s) = user_byte messages
subprefix_byte user_defined (of_user u) = user_byte u
subprefix_byte user_defined of_nullptr = user_byte messages

abbrev pub subprefix : MessageDefinition → ℕ
subprefix d = subprefix_byte d.prefix d.sub_prefix

abbrev pub has_reply : MessageDefinition → Bool
has_reply d = elim d.reply [ none ↦ false | some r ↦ true ]

-- The conditions that a definition asserts of its arguments.
abbrev pub matches_prefix : MessagePrefix → SubPrefix → Bool
matches_prefix p (of_byte b) = true
matches_prefix p of_nullptr = true
matches_prefix system (of_system s) = true
matches_prefix system (of_user u) = false
matches_prefix user_defined (of_system s) = false
matches_prefix user_defined (of_user u) = true

abbrev pub allows_reply : MessagePrefix → ℕ → Bool
allows_reply system b = b == system_byte control || b == system_byte subscription
allows_reply user_defined b =
    b == user_byte commands || b == user_byte get_data || b == user_byte get_next_data

unfoldable pub asserts : MessageDefinition → Bool
asserts d =
    matches_prefix d.prefix d.sub_prefix
    && (not (has_reply d) || allows_reply d.prefix (subprefix d))
    && (not (has_reply d) || leb d.local_id max_message_id)

-- `static_cast<uint16_t>(-static_cast<int16_t>(id))`.
abbrev pub negated : ℕ → ℕ
negated id = (2 ^ 16 - id) % 2 ^ 16

-- `ReplyMessageDef` for the payload of the reply.
abbrev pub reply_of : MessageDefinition → ℕ → MessageDefinition
reply_of d r = record {
  payload = r;
  prefix = d.prefix;
  sub_prefix = d.sub_prefix;
  local_id = negated d.local_id;
  reply = none;
}

abbrev pub reply_message_def : MessageDefinition → Option MessageDefinition
reply_message_def d = elim d.reply [ none ↦ none | some r ↦ some (reply_of d r) ]

abbrev pub is_request : MessageDefinition → Bool
is_request d = has_reply d

-- A negative id, as an `int16_t`, is one from 0x8000.
unfoldable pub is_reply : MessageDefinition → Bool
is_reply d = not (has_reply d) && not (d.local_id == 0) && leb 0x8000 d.local_id

abbrev pub request_id : MessageDefinition → ℕ
request_id d = if is_reply d then negated d.local_id else 0

abbrev pub needs_auto_id : MessageDefinition → Bool
needs_auto_id d = d.local_id == 0

-- `Message::Data`, `Message::Command` and `Message::Event`.
abbrev pub simple_message : UserSubPrefix → ℕ → MessageDefinition
simple_message sub payload = record {
  payload = payload;
  prefix = user_defined;
  sub_prefix = of_user sub;
  local_id = 0;
  reply = none;
}

-- The id on the wire.
abbrev pub id_of : MessageDefinition → ℕ
id_of d = make_message_id (prefix_byte d.prefix) (subprefix d) d.local_id

-- The fields are in the ranges of their C++ types.
pub record IsDefinition (d : MessageDefinition) : Type 0 where
  pub subprefix_byte : subprefix d < 256
  pub id_short : d.local_id < 2 ^ 16

-- Two ids of parts in range are equal only if the parts are.
pub make_message_id-injective :
    (p s i p' s' i' : ℕ)
    → s < 256
    → i < 2 ^ 16
    → s' < 256
    → i' < 2 ^ 16
    → make_message_id p s i ≡ make_message_id p' s' i'
    → (p ≡ p') × (s ≡ s') × (i ≡ i')
unfolding make_message_id
make_message_id-injective p s i p' s' i' hs hi hs' hi' e = (
  omega (arith, hs, hi, hs', hi', e),
  omega (arith, hs, hi, hs', hi', e),
  omega (arith, hs, hi, hs', hi', e),
)

-- The reply to a request with an id in the range of requests is recognised as a reply, it does not
-- ask for an id, its id is none of a request's, and it names the request it answers.
pub reply_message_def_lem :
    (d r : MessageDefinition)
    → 0 < d.local_id
    → d.local_id ≤ max_message_id
    → reply_message_def d ≡ some r
    → (is_reply r ≡ true)
      × (request_id r ≡ d.local_id)
      × (max_message_id < r.local_id)
      × (needs_auto_id r ≡ false)
unfolding is_reply
reply_message_def_lem d r lo hi e = ground (arith, lo, hi, e)
