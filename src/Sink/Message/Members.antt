-- ===== src/Sink/Message/Members.antt =====
-- kafka_sink_node.cpp: what stands in the JSON of a message, and in that of a sequence.
use ros2_dispatcher.Prelude.{
  ℕ, zero, suc, ◌+◌, ◌<◌, String, Option, none, some, Bool, true, false, ◌≡◌, refl, ◌∙◌, arith,
  if◌then◌else◌, ◌==◌, ltb,
}
use ros2_dispatcher.Json.{
  Json, JsonItems, no_items, json_item, JsonMembers, no_members, find_member, set_member, member_of,
  find_member-set_member,
}
use ros2_dispatcher.Sink.Message.{
  message_members, MemberList, members_end, member, Memory, Sizes, member_element_size, array_items,
  build_json_value, build_json_message, build_members, build_nested,
}

-- The i-th item.
unfoldable pub item_at : ℕ → JsonItems → Option Json
item_at i no_items = none
item_at zero (json_item v rest) = some v
item_at (suc i) (json_item v rest) = item_at i rest

module _ (mem : Memory) (z : Sizes) where
  -- The items of a sequence whose elements have addresses are the values of the elements, each in
  -- its place, and there are no others.
  pub array_items-item_at :
      (ptr_of : ℕ → ℕ) (scalar : ℕ → Json)
      → ((k : ℕ) → 0 < ptr_of k)
      → (n i j : ℕ)
      → item_at i (array_items mem z ptr_of scalar n j)
        ≡ (if ltb i n then some (scalar (ptr_of (j + i))) else none)
  unfolding array_items item_at
  array_items-item_at ptr_of scalar h zero i j = ground arith
  array_items-item_at ptr_of scalar h (suc n) zero j = ground (arith, h j)
  array_items-item_at ptr_of scalar h (suc n) (suc i) j =
      ground (arith, h j, array_items-item_at ptr_of scalar h n i (j + 1))

  -- The value of the last member with a name, as the type support declares them.
  unfoldable pub declared : String → MemberList → ℕ → Option Json
  declared key members_end ptr = none
  declared key (member info sub rest) ptr = elim (declared key rest ptr) [
    | some v ↦ some v
    | none ↦
        if info.name == key
        then some (
            build_json_value mem z info (member_element_size z info.type_id sub)
              (build_nested mem z sub) (ptr + info.offset))
        else none
  ]

  abbrev or_else : Option Json → Option Json → Option Json
  or_else (some v) w = some v
  or_else none w = w

  build_members-declared :
      (key : String) (ms : MemberList) (ptr : ℕ) (output : JsonMembers)
      → find_member key (build_members mem z ms ptr output)
        ≡ or_else (declared key ms ptr) (find_member key output)
  unfolding build_json_message declared
  build_members-declared key members_end ptr output = refl
  build_members-declared key (member info sub rest) ptr output =
      let value =
        build_json_value mem z info (member_element_size z info.type_id sub)
          (build_nested mem z sub) (ptr + info.offset) in
      build_members-declared key rest ptr (set_member info.name value output)
      ∙ merge (declared key rest ptr) (info.name == key) value _ _
          (find_member-set_member info.name key value output)
    where
      merge :
          (d : Option Json) (b : Bool) (v : Json) (found before : Option Json)
          → found ≡ (if b then some v else before)
          → or_else d found
            ≡ or_else
                (elim d as (λ _. Option Json) [
                  | some w ↦ some w
                  | none ↦ if b then some v else none
                ])
                before
      merge (some w) b v found before h = refl
      merge none true v found before h = h
      merge none false v found before h = h

  -- The JSON of a message has exactly the declared members, each with the value that stands at its
  -- offset in the message; of two members with one name, the last.
  pub build_json_message-declared :
      (key : String) (size_of : ℕ) (ms : MemberList) (ptr : ℕ)
      → member_of key (build_json_message mem z (message_members size_of ms) ptr)
        ≡ declared key ms ptr
  unfolding build_json_message member_of find_member
  build_json_message-declared key size_of ms ptr =
      ground (arith, build_members-declared key ms ptr no_members)
