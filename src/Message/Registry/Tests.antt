-- ===== src/Message/Registry/Tests.antt =====
-- The registry of include/corerat/messaging/message_registry.hpp on concrete definitions.
use core_ra_t.Base.{ℕ, ◌≡◌, refl, arith, true, none, some, [], ◌∷◌, ◌++◌}
use core_ra_t.Message.Wire.{WireHeader}
use core_ra_t.Message.Id.{
  MessageDefinition, user_defined, of_user, commands, messages, simple_message, subprefix_byte,
  make_message_id, is_reply,
}
use core_ra_t.Message.Registry.Lookup.{payload_type_for-get_message_id}
use core_ra_t.Message.Registry.{
  Definitions, payload_type_for, find_message_def, processed, auto_assign_ids_process,
  expand_replies, highest_from, check, get_type_index, type_index_from, payload_types, type_at,
  message_ids, check_all_pairs, IsDistinct,
}
use core_ra_t.Message.Registry.Distinct.{processed-IsDistinct, check-IsDistinct}
use core_ra_t.Message.Sample.{small_header}

-- A command with payload 1, id 5 and reply 2, and a data message with payload 3 that has no id.
abbrev given_command : MessageDefinition
given_command = record {
  payload = 1;
  prefix = user_defined;
  sub_prefix = of_user commands;
  local_id = 5;
  reply = some 2;
}

abbrev auto_command : MessageDefinition
auto_command = record {
  payload = 4;
  prefix = user_defined;
  sub_prefix = of_user commands;
  local_id = 0;
  reply = some 2;
}

ids_of_three :
    message_ids (processed (given_command ∷ simple_message messages 3 ∷ auto_command ∷ []))
    ≡ 0x01010005 ∷ 0x0101FFFB ∷ 0x01000001 ∷ 0x01010006 ∷ 0x0101FFFA ∷ []
unfolding message_ids expand_replies auto_assign_ids_process highest_from is_reply subprefix_byte
    make_message_id
ids_of_three = refl

-- An id that the registry gives is met by one that a later definition has.
abbrev first_command : MessageDefinition
first_command = record {
  payload = 9;
  prefix = user_defined;
  sub_prefix = of_user commands;
  local_id = 1;
  reply = none;
}

ids_that_meet :
    message_ids (processed (simple_message commands 8 ∷ first_command ∷ []))
    ≡ 0x01010001 ∷ 0x01010001 ∷ []
unfolding message_ids expand_replies auto_assign_ids_process highest_from is_reply subprefix_byte
    make_message_id
ids_that_meet = refl

ids_that_meet-check : check (simple_message commands 8 ∷ first_command ∷ []) ≡ true
unfolding check check_all_pairs subprefix_byte make_message_id
ids_that_meet-check = refl

-- Two commands have replies of one type: its index is that of another type.
index_of_shared_reply : get_type_index (given_command ∷ auto_command ∷ []) 2 ≡ 2
unfolding type_index_from payload_types expand_replies auto_assign_ids_process highest_from is_reply
    subprefix_byte
index_of_shared_reply = refl

type_at_that_index :
    type_at (payload_types (processed (given_command ∷ auto_command ∷ []))) 2 ≡ some 4
unfolding type_at payload_types expand_replies auto_assign_ids_process highest_from is_reply
    subprefix_byte
type_at_that_index = refl

processed-IsDistinct_example :
    IsDistinct (processed ((given_command ∷ []) ++ (simple_message messages 3 ∷ auto_command ∷ [])))
unfolding subprefix_byte
processed-IsDistinct_example =
    processed-IsDistinct 5 (given_command ∷ []) (simple_message messages 3 ∷ auto_command ∷ [])
      (omega (arith), omega (arith), omega (arith), tt) (tt, tt)
      (omega (arith), refl, (omega (arith), refl, tt)) (omega (arith))

check-IsDistinct_example :
    (check (given_command ∷ first_command ∷ []) ≡ true
      → IsDistinct (given_command ∷ first_command ∷ []))
    × (IsDistinct (given_command ∷ first_command ∷ [])
        → check (given_command ∷ first_command ∷ []) ≡ true)
check-IsDistinct_example = check-IsDistinct (given_command ∷ first_command ∷ [])

abbrev with_type : ℕ → WireHeader
with_type id = record small_header { msg_type = id }

-- The types of a command, of a message without id and of the command's reply.
abbrev three : Definitions
three = processed (given_command ∷ simple_message messages 3 ∷ [])

three-IsDistinct : IsDistinct three
unfolding expand_replies auto_assign_ids_process highest_from is_reply subprefix_byte
    make_message_id
three-IsDistinct = (
  ((λ e. omega (arith, e)), ((λ e. omega (arith, e)), tt)),
  (((λ e. omega (arith, e)), tt), (tt, tt)),
)

payload_type_for-get_message_id_example : payload_type_for three 0x0101FFFB ≡ some 2
unfolding expand_replies auto_assign_ids_process highest_from is_reply subprefix_byte
    make_message_id find_message_def
payload_type_for-get_message_id_example =
    payload_type_for-get_message_id three 2 0x0101FFFB three-IsDistinct refl
