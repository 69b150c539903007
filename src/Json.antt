-- ===== src/Json.antt =====
-- JSON values, as nlohmann::json holds them: an object is a std::map, kept in the order of its keys.
use ros2_dispatcher.Prelude.{
  ℕ, ◌+◌, ◌-◌, ◌*◌, String, Bool, Option, none, some, ◌≡◌, refl, arith, ◌==◌, eq_iff, text_lt, leb,
  ltb, if◌then◌else◌, ℤ, pos, negsuc,
}

-- A double is given by its 64 bits.
mutual
  pub data Json : Type 0 where
    null : Json
    boolean : Bool → Json
    number : ℤ → Json
    floating : ℕ → Json
    text : String → Json
    array : JsonItems → Json
    object : JsonMembers → Json

  pub data JsonItems : Type 0 where
    no_items : JsonItems
    json_item : Json → JsonItems → JsonItems

  pub data JsonMembers : Type 0 where
    no_members : JsonMembers
    json_member : String → Json → JsonMembers → JsonMembers

unfoldable pub find_member : String → JsonMembers → Option Json
find_member key no_members = none
find_member key (json_member k v rest) = if k == key then some v else find_member key rest

-- object[key] = value
unfoldable pub set_member : String → Json → JsonMembers → JsonMembers
set_member key value no_members = json_member key value no_members
set_member key value (json_member k v rest) =
    if k == key
    then json_member key value rest
    else if text_lt key k
    then json_member key value (json_member k v rest)
    else json_member k v (set_member key value rest)

pub find_member-set_member :
    (k j : String) (v : Json) (ms : JsonMembers)
    → find_member j (set_member k v ms) ≡ (if k == j then some v else find_member j ms)
unfolding find_member set_member
find_member-set_member k j v no_members = refl
find_member-set_member k j v (json_member i w ms) =
    ground (arith, eq_iff k j, eq_iff i k, eq_iff i j, find_member-set_member k j v ms)

-- json["key"] of an object that may be none, and is_object().
unfoldable pub member_of : String → Json → Option Json
unfolding find_member
member_of key (object ms) = find_member key ms
member_of key _ = none

-- What the code uses of nlohmann::json: dump() gives no text where it throws, parse() without
-- exceptions no value where it discards, and a double as an int64_t.
pub record Nlohmann : Type 0 where
  pub dump : Json → Option String
  pub parse : String → Option Json
  pub truncate : ℕ → ℤ

-- Integers: a sum, and a multiple.
unfoldable pub add_int : ℤ → ℤ → ℤ
add_int (pos a) (pos b) = pos (a + b)
add_int (negsuc a) (negsuc b) = negsuc (a + b + 1)
add_int (pos a) (negsuc b) = if ltb b a then pos (a - b - 1) else negsuc (b - a)
add_int (negsuc a) (pos b) = if ltb a b then pos (b - a - 1) else negsuc (a - b)

unfoldable pub scale_int : ℕ → ℤ → ℤ
scale_int k (pos a) = pos (k * a)
scale_int k (negsuc a) = if leb (k * (a + 1)) 0 then pos 0 else negsuc (k * (a + 1) - 1)
