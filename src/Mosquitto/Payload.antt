-- ===== src/Mosquitto/Payload.antt =====
-- mosquitto_sink_node.cpp: apply_message_key_to_json and inject_frame_id_into_cdr, which put the
-- message key into the header of a message.
pub mod Members
use ros2_dispatcher.Prelude.{
  ℕ, ◌+◌, String, Bool, true, false, ◌&&◌, Option, none, some, List, ◌==◌, is_empty, nat_eq,
  if◌then◌else◌,
}
use ros2_dispatcher.Controller.World.{Outcome, ok, fail, thrown}
use ros2_dispatcher.Json.{Json, text, object, JsonMembers, set_member, Nlohmann}
use ros2_dispatcher.Sink.Envelope.{object_in}
use ros2_dispatcher.Sink.Message.{
  FieldType, MemberInfo, MessageMembers, message_members, MemberList, members_end, member, Nested,
  plain, nested, Memory, Rmw, TypeSupport, nested_size,
}

-- j["header"]["frame_id"] = message_key, or none where the function returns false before.
unfoldable pub with_frame_id : String → Json → Option Json
unfolding object_in set_member
with_frame_id message_key (object ms) = elim (object_in "header" (some (object ms))) [
  | some (object hs) ↦
      some (object (set_member "header" (object (set_member "frame_id" (text message_key) hs)) ms))
  | _ ↦ none
]
with_frame_id message_key _ = none

-- The payload after the call.
unfoldable pub apply_message_key_to_json : Nlohmann → String → String → Outcome String
unfolding with_frame_id
apply_message_key_to_json nl json_payload message_key =
    if is_empty message_key then ok json_payload else elim (nl.parse json_payload) [
      | none ↦ ok json_payload
      | some j ↦ elim (with_frame_id message_key j) [
        | none ↦ ok json_payload
        | some j' ↦ elim (nl.dump j') [ some s ↦ ok s | none ↦ thrown "dump" ]
      ]
    ]

abbrev is_message : FieldType → Bool
is_message FieldType.message = true
is_message _ = false

abbrev is_string : FieldType → Bool
is_string FieldType.string = true
is_string _ = false

-- The first member `frame_id` of type string: its offset.
unfoldable pub find_frame_id : MemberList → Option ℕ
find_frame_id members_end = none
find_frame_id (member info sub rest) =
    let later = find_frame_id rest in
    if info.name == "frame_id" && is_string info.type_id then some info.offset else later

-- The first member `header` of type message, with members_: where its frame_id stands, if it has one.
unfoldable pub find_header : MemberList → Option ℕ
unfolding find_frame_id
find_header members_end = none
find_header (member info plain rest) = find_header rest
find_header (member info (nested (message_members size_of members)) rest) =
    let later = find_header rest in
    if info.name == "header" && is_message info.type_id
    then elim (find_frame_id members) [ none ↦ none | some offset ↦ some (info.offset + offset) ]
    else later

-- The assignment of a std::string at an address, and rmw_serialize, none where it fails.
pub record MessageWriter : Type 0 where
  pub write_string : Memory → ℕ → String → Memory
  pub serialize : Memory → ℕ → Option (List ℕ)

module _ (rmw : Rmw) (writer : MessageWriter) where
  -- From the deserialized message on: the result, and the output, which holds the value before.
  unfoldable pub write_frame_id : MemberList → Memory → ℕ → String → List ℕ → Bool × List ℕ
  unfolding find_header
  write_frame_id members mem ptr frame_id value = elim (find_header members) [
    | none ↦ (false, value)
    | some offset ↦ elim (writer.serialize (writer.write_string mem (ptr + offset) frame_id) ptr) [
      | none ↦ (true, value)
      | some bytes ↦ (true, bytes)
    ]
  ]

  unfoldable pub inject_into : List ℕ → MessageMembers → String → List ℕ → Bool × List ℕ
  unfolding write_frame_id
  inject_into serialized (message_members size_of members) frame_id value =
      if nat_eq size_of 0
      then (false, value)
      else if nat_eq (rmw.allocate size_of) 0
      then (false, value)
      else elim (rmw.deserialize serialized (rmw.allocate size_of)) [
        | none ↦ (false, value)
        | some mem ↦ write_frame_id members mem (rmw.allocate size_of) frame_id value
      ]

  unfoldable pub inject_frame_id_into_cdr : List ℕ → TypeSupport → String → List ℕ → Bool × List ℕ
  unfolding inject_into
  inject_frame_id_into_cdr serialized ts frame_id value = elim ts.members [
    | none ↦ (false, value)
    | some members ↦ inject_into serialized members frame_id value
  ]
