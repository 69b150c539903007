-- ===== src/Controller/Names.antt =====
-- dispatcher_controller_node.cpp: the names that the controller makes up for topic_tools nodes and
-- their output topics. A topic name or a plugin name is a text; `/`, `_` and `:` are ASCII.
use Prim.Native.Char.{Char, code}
use ros2_dispatcher.Prelude.{
  ℕ, String, Bool, Option, none, some, ◌≡◌, refl, subst, ◌↔◌, ◌≢◌, arith, ◌⊕◌, is_empty, nat_eq,
  if◌then◌else◌,
}

abbrev is_char : ℕ → Char → Bool
is_char n c = nat_eq (code c) n

-- std::replace(begin, end, '/', '_')
unfoldable pub replace_slashes : String → String
replace_slashes String.[] = ""
replace_slashes (String.◌∷◌ c s) =
    let rest = replace_slashes s in
    if is_char b'/' c then String.◌∷◌ "_" rest else String.◌∷◌ c rest

unfoldable pub strip_underscores : String → String
strip_underscores String.[] = ""
strip_underscores (String.◌∷◌ c s) =
    let rest = strip_underscores s in if is_char b'_' c then rest else String.◌∷◌ c s

abbrev topic_if_empty : String → String
topic_if_empty String.[] = "topic"
topic_if_empty (String.◌∷◌ c s) = String.◌∷◌ c s

unfoldable pub sanitize_topic_segment : String → String
unfolding replace_slashes strip_underscores
sanitize_topic_segment topic = topic_if_empty (strip_underscores (replace_slashes topic))

-- The text behind the last `:`; find_last_of("::") looks for either character of its argument.
unfoldable pub after_last_colon : String → Option String
after_last_colon String.[] = none
after_last_colon (String.◌∷◌ c s) = elim (after_last_colon s) [
  | some t ↦ some t
  | none ↦ if is_char b':' c then some s else none
]

unfoldable pub default_tool_node_name : String → String → String
unfolding after_last_colon sanitize_topic_segment
default_tool_node_name plugin_name topic_name =
    let base : String = elim (after_last_colon plugin_name) [
      | some t ↦ if is_empty t then plugin_name else t
      | none ↦ plugin_name
    ] in
    sanitize_topic_segment (base ⊕ "_" ⊕ topic_name)

abbrev pub without_slash : String → String
without_slash String.[] = ""
without_slash (String.◌∷◌ c s) = if is_char b'/' c then s else String.◌∷◌ c s

unfoldable pub default_output_topic : String → String → String
default_output_topic input_topic node_name =
    let prefix : String = if is_empty node_name then "topic_tools" else node_name in
    let normalized = without_slash input_topic in
    if is_empty normalized then "/" ⊕ prefix else "/" ⊕ prefix ⊕ "/" ⊕ normalized

-- No `/` in the text.
abbrev pub NoSlash : String → Type 0
NoSlash String.[] = Unit {0}
NoSlash (String.◌∷◌ c s) = (code c ≢ b'/') × NoSlash s

-- A text that is not empty, has no `/` and does not begin with `_`. A segment of a ROS name is such
-- a text, and has ASCII letters, digits and `_` only and no digit at its start besides.
abbrev pub IsClean : String → Type 0
IsClean String.[] = ⊥
IsClean (String.◌∷◌ c s) = (code c ≢ b'_') × (code c ≢ b'/') × NoSlash s

replace_slashes-NoSlash : (s : String) → NoSlash (replace_slashes s)
unfolding replace_slashes
replace_slashes-NoSlash String.[] = tt
replace_slashes-NoSlash (String.◌∷◌ c s) = ground (arith, replace_slashes-NoSlash s)

strip-IsClean : (s : String) → NoSlash s → IsClean (topic_if_empty (strip_underscores s))
unfolding strip_underscores
strip-IsClean String.[] h = ground arith
strip-IsClean (String.◌∷◌ c s) h = ground (arith, strip-IsClean s h.1)

replace_slashes_fix : (s : String) → NoSlash s → replace_slashes s ≡ s
unfolding replace_slashes
replace_slashes_fix String.[] h = refl
replace_slashes_fix (String.◌∷◌ c s) h = ground (arith, replace_slashes_fix s h.1)

strip_fix : (s : String) → IsClean s → topic_if_empty (strip_underscores s) ≡ s
unfolding strip_underscores
strip_fix String.[] h = elim h [ ]
strip_fix (String.◌∷◌ c s) h = ground arith

IsClean-NoSlash : (s : String) → IsClean s → NoSlash s
IsClean-NoSlash String.[] h = elim h [ ]
IsClean-NoSlash (String.◌∷◌ c s) h = (h.1, h.2)

-- Whatever the text is, what sanitize_topic_segment makes of it is not empty, has no `/` and does not
-- begin with `_`; and the texts like that are the ones that it leaves as they are.
pub sanitize_topic_segment-IsClean :
    (s : String) → IsClean (sanitize_topic_segment s) × ((sanitize_topic_segment s ≡ s) ↔ IsClean s)
unfolding sanitize_topic_segment
sanitize_topic_segment-IsClean s =
    let clean = strip-IsClean (replace_slashes s) (replace_slashes-NoSlash s) in
    (
      clean,
      (
        (λ same. subst IsClean same clean),
        (λ h. rw (replace_slashes_fix s (IsClean-NoSlash s h)) (strip_fix s h)),
      ),
    )
