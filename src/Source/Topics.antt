-- ===== src/Source/Topics.antt =====
-- kafka_source_node.cpp: parse_topic_mappings and derive_ros_topic.
pub mod Laws
use Prim.Native.Char.{Char, code}
use ros2_dispatcher.Prelude.{
  ℕ, zero, suc, String, Bool, true, false, not, ◌&&◌, ◌||◌, Option, none, some, List, [], ◌∷◌, ◌⊕◌,
  ◌==◌, is_empty, nat_eq, if◌then◌else◌,
}
use ros2_dispatcher.Text.{trim, has_prefix}

-- map[key] = value
unfoldable pub put {ℓ} : {V : Type ℓ} → String → V → List (String × V) → List (String × V)
put k v [] = (k, v) ∷ []
put k v ((j, w) ∷ m) = if j == k then (k, v) ∷ m else (j, w) ∷ put k v m

-- The text before the first such character, and the text behind it, none where there is no such one.
unfoldable pub cut : ℕ → String → String × Option String
cut at String.[] = ("", none)
cut at (String.◌∷◌ c s) =
    let (head, rest) = cut at s in
    if nat_eq (code c) at then ("", some s) else (String.◌∷◌ c head, rest)

-- One turn of the loop: the text of `current`.
unfoldable pub take_mapping : String → List (String × String) → List (String × String)
unfolding cut trim
take_mapping current result =
    let (key, rest) = cut b'=' current in
    elim rest [
      | none ↦ result
      | some value ↦
          if not (is_empty (trim key)) && not (is_empty (trim value))
          then put (trim key) (trim value) result
          else result
    ]

-- The texts that getline gives, one after the other: `current` is what it has read of the next one. At
-- the end of the text there is one more where something is left.
unfoldable pub take_mappings : String → String → List (String × String) → List (String × String)
unfolding take_mapping
take_mappings String.[] current result =
    if is_empty current then result else take_mapping current result
take_mappings (String.◌∷◌ c s) current result =
    if nat_eq (code c) b','
    then take_mappings s "" (take_mapping current result)
    else take_mappings s (current ⊕ String.◌∷◌ c "") result

unfoldable pub parse_topic_mappings : String → List (String × String)
unfolding take_mappings
parse_topic_mappings mappings = take_mappings mappings "" []

-- s.substr(n), for a text of n characters or more.
unfoldable pub substr : ℕ → String → String
substr zero s = s
substr (suc n) String.[] = ""
substr (suc n) (String.◌∷◌ c s) = substr n s

abbrev pub is_slash : Char → Bool
is_slash c = nat_eq (code c) b'/'

-- std::replace(begin, end, '.', '/')
abbrev pub slash_for_dot : Char → Char
slash_for_dot c = if nat_eq (code c) b'.' then "/" else c

unfoldable pub dots_to_slashes : String → String
dots_to_slashes String.[] = ""
dots_to_slashes (String.◌∷◌ c s) = String.◌∷◌ (slash_for_dot c) (dots_to_slashes s)

-- pop_back() where back() is a slash.
unfoldable pub pop_slash : String → String
pop_slash String.[] = ""
pop_slash (String.◌∷◌ c String.[]) = if is_slash c then "" else String.◌∷◌ c ""
pop_slash (String.◌∷◌ c (String.◌∷◌ d s)) = String.◌∷◌ c (pop_slash (String.◌∷◌ d s))

-- Where the front is no slash, one is inserted.
unfoldable pub lead_slash : String → String
lead_slash String.[] = ""
lead_slash (String.◌∷◌ c s) = if is_slash c then String.◌∷◌ c s else String.◌∷◌ "/" (String.◌∷◌ c s)

-- std::unique on slashes.
unfoldable pub collapse : String → String
collapse String.[] = ""
collapse (String.◌∷◌ c String.[]) = String.◌∷◌ c ""
collapse (String.◌∷◌ c (String.◌∷◌ d s)) =
    let rest = collapse (String.◌∷◌ d s) in
    if is_slash c && is_slash d then rest else String.◌∷◌ c rest

-- pop_back() where back() is a slash and the text is longer than one character.
unfoldable pub pop_trailing : String → String
unfolding pop_slash
pop_trailing String.[] = ""
pop_trailing (String.◌∷◌ c String.[]) = String.◌∷◌ c ""
pop_trailing (String.◌∷◌ c (String.◌∷◌ d s)) = String.◌∷◌ c (pop_slash (String.◌∷◌ d s))

-- From the prefix and the suffix.
unfoldable pub join_topic : String → String → String
unfolding collapse pop_trailing
join_topic topic_prefix suffix =
    if is_empty suffix
    then (if is_empty topic_prefix then "/" else topic_prefix)
    else pop_trailing (collapse (topic_prefix ⊕ String.◌∷◌ "/" suffix))

unfoldable pub derive_ros_topic : String → String → String
unfolding substr dots_to_slashes lead_slash join_topic has_prefix
derive_ros_topic ros_topic_prefix kafka_topic =
    let suffix =
      dots_to_slashes
        (if has_prefix "ros2." kafka_topic then substr 5 kafka_topic else kafka_topic) in
    join_topic (lead_slash (pop_slash ros_topic_prefix)) suffix
