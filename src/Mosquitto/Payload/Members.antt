-- ===== src/Mosquitto/Payload/Members.antt =====
-- mosquitto_sink_node.cpp: the members of a payload that has passed apply_message_key_to_json.
use ros2_dispatcher.Prelude.{String, Option, none, some, ◌≡◌, ◌≢◌, arith, eq_iff}
use ros2_dispatcher.Controller.World.{Outcome, ok, thrown}
use ros2_dispatcher.Json.{
  text, object, JsonMembers, find_member, set_member, member_of, Nlohmann, find_member-set_member,
}
use ros2_dispatcher.Sink.Envelope.{object_in}
use ros2_dispatcher.Mosquitto.Payload.{with_frame_id, apply_message_key_to_json}

-- `ns` is `ms` but for the `frame_id` of its header, which is the key.
pub record IsKeyed (ms ns : JsonMembers) (message_key : String) : Type 0 where
  pub header : JsonMembers
  pub keyed_header : JsonMembers
  pub header_was : find_member "header" ms ≡ some (object header)
  pub header_is : find_member "header" ns ≡ some (object keyed_header)
  pub frame_id_is : find_member "frame_id" keyed_header ≡ some (text message_key)
  pub others_in_header :
      (key : String) → key ≢ "frame_id" → find_member key keyed_header ≡ find_member key header
  pub others : (key : String) → key ≢ "header" → find_member key ns ≡ find_member key ms

-- What dump() makes of a value.
abbrev pub dumped : Option String → Outcome String
dumped (some s) = ok s
dumped none = thrown "dump"

-- A payload that is the text of an object with an object for its header: with a message key that is
-- not empty, the function gives what dump() makes of the object whose header has the key for its
-- `frame_id`, where every other member of the header and of the object stays.
pub apply_message_key_to_json-IsKeyed :
    (nl : Nlohmann) (payload message_key : String) (ms hs : JsonMembers)
    → message_key ≢ ""
    → nl.parse payload ≡ some (object ms)
    → find_member "header" ms ≡ some (object hs)
    → (ns : JsonMembers) × (apply_message_key_to_json nl payload message_key
        ≡ dumped (nl.dump (object ns)))
      × IsKeyed ms ns message_key
unfolding apply_message_key_to_json with_frame_id object_in member_of
apply_message_key_to_json-IsKeyed nl payload message_key ms hs ne parsed has =
    let keyed = set_member "frame_id" (text message_key) hs in
    (
      set_member "header" (object keyed) ms,
      ground (arith, eq_iff message_key ""),
      record {
        header = hs;
        keyed_header = keyed;
        header_was = has;
        header_is = find_member-set_member "header" "header" (object keyed) ms;
        frame_id_is = find_member-set_member "frame_id" "frame_id" (text message_key) hs;
        others_in_header = λ key other. ground (
          arith,
          eq_iff "frame_id" key,
          find_member-set_member "frame_id" key (text message_key) hs,
          other,
        );
        others = λ key other. ground (
          arith,
          eq_iff "header" key,
          find_member-set_member "header" key (object keyed) ms,
          other,
        );
      },
    )
