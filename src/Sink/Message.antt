-- ===== src/Sink/Message.antt =====
-- kafka_sink_node.cpp: a ROS message as JSON, by the introspection type support of its type. The
-- type support and the memory of the message are rosidl's: the members are described by a data
-- type, and what stands at an address is a parameter.
pub mod Members
use ros2_dispatcher.Prelude.{
  ℕ, zero, suc, ◌+◌, ◌*◌, String, Bool, true, false, ◌&&◌, Option, none, some, List, nat_eq, ltb,
  is_some, if◌then◌else◌, ℤ, pos,
}
use ros2_dispatcher.Controller.World.{Outcome, ok, fail, thrown}
use ros2_dispatcher.Json.{
  Json, null, number, floating, text, array, object, JsonItems, no_items, json_item, JsonMembers,
  set_member, Nlohmann,
}

-- rosidl_typesupport_introspection_cpp/field_types.hpp
pub data FieldType : Type 0 where
  boolean char octet uint8 int8 uint16 int16 uint32 int32 uint64 int64 float double string wstring
        message :
      FieldType
  other_type : ℕ → FieldType

-- A MessageMember but for its members_; an address is a number, 0 is nullptr.
pub record MemberInfo : Type 0 where
  pub name : String
  pub type_id : FieldType
  pub offset : ℕ
  pub is_array : Bool
  pub array_size : ℕ
  pub size_function : Option (ℕ → ℕ)
  pub get_const_function : Option (ℕ → ℕ → ℕ)

-- `plain` is a member with no members_.
mutual
  pub data MessageMembers : Type 0 where
    message_members : (size_of : ℕ) → MemberList → MessageMembers

  pub data MemberList : Type 0 where
    members_end : MemberList
    member : MemberInfo → Nested → MemberList → MemberList

  pub data Nested : Type 0 where
    plain : Nested
    nested : MessageMembers → Nested

-- What is read at an address: `unsigned` and `signed` by a number of bytes.
pub record Memory : Type 0 where
  pub bool_at : ℕ → Bool
  pub char_at : ℕ → ℤ
  pub unsigned_at : ℕ → ℕ → ℕ
  pub signed_at : ℕ → ℕ → ℤ
  pub is_finite : ℕ → ℕ → Bool
  pub as_double : ℕ → ℕ → ℕ
  pub string_at : ℕ → String
  pub utf8_of_wstring_at : ℕ → String

-- sizeof(std::string) and sizeof(std::u16string)
pub record Sizes : Type 0 where
  pub string_size : ℕ
  pub wstring_size : ℕ

unfoldable pub nested_size : Nested → ℕ
nested_size plain = 0
nested_size (nested (message_members size_of members)) = size_of

unfoldable pub member_element_size : Sizes → FieldType → Nested → ℕ
unfolding nested_size
member_element_size z FieldType.boolean sub = 1
member_element_size z char sub = 1
member_element_size z octet sub = 1
member_element_size z uint8 sub = 1
member_element_size z int8 sub = 1
member_element_size z uint16 sub = 2
member_element_size z int16 sub = 2
member_element_size z uint32 sub = 4
member_element_size z int32 sub = 4
member_element_size z uint64 sub = 8
member_element_size z int64 sub = 8
member_element_size z float sub = 4
member_element_size z double sub = 8
member_element_size z string sub = z.string_size
member_element_size z wstring sub = z.wstring_size
member_element_size z message sub = nested_size sub
member_element_size z (other_type n) sub = 0

module _ (mem : Memory) (z : Sizes) where
  unfoldable pub finite_or_null : ℕ → ℕ → Json
  finite_or_null width ptr =
      if mem.is_finite width ptr then floating (mem.as_double width ptr) else null

  -- The value at an address that is not nullptr; `of_message` builds a nested message.
  unfoldable pub scalar_at : FieldType → (ℕ → Json) → ℕ → Json
  unfolding finite_or_null
  scalar_at FieldType.boolean of_message ptr = Json.boolean (mem.bool_at ptr)
  scalar_at char of_message ptr = number (mem.char_at ptr)
  scalar_at octet of_message ptr = number (pos (mem.unsigned_at 1 ptr))
  scalar_at uint8 of_message ptr = number (pos (mem.unsigned_at 1 ptr))
  scalar_at int8 of_message ptr = number (mem.signed_at 1 ptr)
  scalar_at uint16 of_message ptr = number (pos (mem.unsigned_at 2 ptr))
  scalar_at int16 of_message ptr = number (mem.signed_at 2 ptr)
  scalar_at uint32 of_message ptr = number (pos (mem.unsigned_at 4 ptr))
  scalar_at int32 of_message ptr = number (mem.signed_at 4 ptr)
  scalar_at uint64 of_message ptr = number (pos (mem.unsigned_at 8 ptr))
  scalar_at int64 of_message ptr = number (mem.signed_at 8 ptr)
  scalar_at float of_message ptr = finite_or_null 4 ptr
  scalar_at double of_message ptr = finite_or_null 8 ptr
  scalar_at string of_message ptr = text (mem.string_at ptr)
  scalar_at wstring of_message ptr = text (mem.utf8_of_wstring_at ptr)
  scalar_at message of_message ptr = of_message ptr
  scalar_at (other_type n) of_message ptr = null

  unfoldable pub build_json_scalar : FieldType → (ℕ → Json) → ℕ → Json
  unfolding scalar_at
  build_json_scalar type_id of_message ptr =
      if nat_eq ptr 0 then null else scalar_at type_id of_message ptr

  unfoldable pub element_ptr : MemberInfo → ℕ → ℕ → ℕ → ℕ
  element_ptr info element_size array_ptr index = elim info.get_const_function [
    | some get ↦ get array_ptr index
    | none ↦ if ltb 0 element_size then array_ptr + index * element_size else 0
  ]

  unfoldable pub array_length : MemberInfo → ℕ → ℕ
  array_length info array_ptr =
      if nat_eq info.array_size 0
      then elim info.size_function [ none ↦ 0 | some size ↦ size array_ptr ]
      else info.array_size

  -- The turns of the loop that are left, from the index on.
  unfoldable pub array_items : (ℕ → ℕ) → (ℕ → Json) → ℕ → ℕ → JsonItems
  array_items ptr_of scalar zero index = no_items
  array_items ptr_of scalar (suc left) index =
      let rest = array_items ptr_of scalar left (index + 1) in
      if nat_eq (ptr_of index) 0 then rest else json_item (scalar (ptr_of index)) rest

  unfoldable pub build_json_array : MemberInfo → ℕ → (ℕ → Json) → ℕ → Json
  unfolding array_items element_ptr array_length build_json_scalar
  build_json_array info element_size of_message array_ptr =
      if nat_eq array_ptr 0
      then array no_items
      else array (
          array_items (element_ptr info element_size array_ptr)
            (build_json_scalar info.type_id of_message) (array_length info array_ptr) 0)

  unfoldable pub build_json_value : MemberInfo → ℕ → (ℕ → Json) → ℕ → Json
  unfolding build_json_array build_json_scalar
  build_json_value info element_size of_message ptr =
      if info.is_array
      then build_json_array info element_size of_message ptr
      else build_json_scalar info.type_id of_message ptr

  unfoldable mutual
    pub build_json_message : MessageMembers → ℕ → Json
    build_json_message (message_members size_of members) ptr =
        object (build_members members ptr JsonMembers.no_members)

    pub build_members : MemberList → ℕ → JsonMembers → JsonMembers
    build_members members_end ptr output = output
    build_members (member info sub rest) ptr output = build_members rest ptr (
        set_member info.name
          (build_json_value info (member_element_size z info.type_id sub) (build_nested sub)
            (ptr + info.offset))
          output)

    pub build_nested : Nested → ℕ → Json
    build_nested plain ptr = null
    build_nested (nested members) ptr = build_json_message members ptr

-- rmw_deserialize into a buffer of so many bytes: the memory and the address of the message, or
-- none where it fails; `allocate` is the address that malloc gives.
pub record Rmw : Type 0 where
  pub allocate : ℕ → ℕ
  pub deserialize : List ℕ → ℕ → Option Memory
  pub sizes : Sizes

-- The type supports of a subscription: rmw's, and the introspection's with its data.
pub record TypeSupport : Type 0 where
  pub has_rmw : Bool
  pub has_introspection : Bool
  pub members : Option MessageMembers

module _ (nl : Nlohmann) (rmw : Rmw) where
  unfoldable pub dump_message : MessageMembers → Memory → ℕ → Outcome String
  dump_message members mem ptr = elim (nl.dump (build_json_message mem rmw.sizes members ptr)) [
    | none ↦ thrown "dump"
    | some s ↦ ok s
  ]

  unfoldable pub serialize_members : List ℕ → MessageMembers → Outcome String
  unfolding dump_message nested_size
  serialize_members serialized members =
      let size_of = nested_size (nested members) in
      if nat_eq size_of 0
      then fail "Introspection metadata unavailable."
      else (let ptr = rmw.allocate size_of in
          if nat_eq ptr 0
          then fail "Failed to allocate message for JSON serialization."
          else elim (rmw.deserialize serialized ptr) [
            | none ↦ fail "Failed to deserialize message for JSON serialization."
            | some mem ↦ dump_message members mem ptr
          ])

  unfoldable pub serialize_message_to_json : List ℕ → TypeSupport → Outcome String
  unfolding serialize_members
  serialize_message_to_json serialized ts =
      if ts.has_rmw && ts.has_introspection
      then elim ts.members [
        | none ↦ fail "Introspection metadata unavailable."
        | some members ↦ serialize_members serialized members
      ]
      else fail "Missing type support for JSON serialization."
