-- ===== src/Sink/Envelope.antt =====
-- kafka_sink_node.cpp: apply_ts_envelope_to_json.
pub mod Members
use ros2_dispatcher.Prelude.{
  ℕ, ◌-◌, ◌%◌, ◌^◌, ◌*◌, String, Bool, true, false, ◌||◌, Option, none, some, nat_eq, ltb,
  if◌then◌else◌, ℤ, pos, negsuc, ◌≡◌, ◌≢◌, refl, arith, eq_iff, ◌==◌,
}
use ros2_dispatcher.Controller.World.{Outcome, ok, fail, thrown}
use ros2_dispatcher.Json.{
  Json, null, boolean, number, floating, text, array, object, JsonMembers, no_members, find_member,
  set_member, member_of, Nlohmann, add_int, scale_int, find_member-set_member,
}

abbrev is_zero : ℤ → Bool
is_zero (pos n) = nat_eq n 0
is_zero (negsuc n) = false

-- A number that is stored as an uint64_t, read as an int64_t.
unfoldable pub wrap_int64 : ℤ → ℤ
wrap_int64 (pos n) = if ltb n (2 ^ 63) then pos n else negsuc (2 ^ 64 - 1 - n)
wrap_int64 (negsuc n) = negsuc n

-- A number reduced to an int64_t: the whole number modulo 2^64, from -2^63 to 2^63 - 1.
unfoldable pub signed64 : ℤ → ℤ
signed64 (pos n) = let r = n % 2 ^ 64 in if ltb r (2 ^ 63) then pos r else negsuc (2 ^ 64 - 1 - r)
signed64 (negsuc n) =
    let r = n % 2 ^ 64 in if ltb r (2 ^ 63) then negsuc r else pos (2 ^ 64 - 1 - r)

-- sec * 1000000000LL + nsec. Both steps are of int64_t; where one overflows, which is undefined,
-- the result is taken to wrap around.
unfoldable pub sum_ns : ℤ → ℤ → ℤ
unfolding signed64 add_int scale_int
sum_ns sec nsec = signed64 (add_int (signed64 (scale_int 1000000000 sec)) nsec)

-- The object under a key of a value, if it is one.
unfoldable pub object_in : String → Option Json → Option Json
unfolding member_of
object_in key none = none
object_in key (some j) = elim (member_of key j) [ some (object ms) ↦ some (object ms) | _ ↦ none ]

module _ (nl : Nlohmann) where
  -- get<int64_t>(), which throws a type_error.
  unfoldable pub get_int64 : Json → Outcome ℤ
  unfolding wrap_int64
  get_int64 (number n) = ok (wrap_int64 n)
  get_int64 (boolean b) = ok (pos (if b then 1 else 0))
  get_int64 (floating bits) = ok (nl.truncate bits)
  get_int64 _ = thrown "type_error"

  -- t0_ns, from both parts of a stamp.
  unfoldable pub stamp_ns : ℤ → ℤ → Option ℤ
  unfolding sum_ns
  stamp_ns sec nsec =
      if is_zero sec
      then (if is_zero nsec then none else some (sum_ns sec nsec))
      else some (sum_ns sec nsec)

  unfoldable pub read_stamp : Option Json → Option Json → Outcome (Option ℤ)
  unfolding get_int64 stamp_ns
  read_stamp (some sec) (some nanosec) = elim (get_int64 sec) [
    | ok s ↦ elim (get_int64 nanosec) [
      | ok n ↦ ok (stamp_ns s n)
      | fail e ↦ fail e
      | thrown e ↦ thrown e
    ]
    | fail e ↦ fail e
    | thrown e ↦ thrown e
  ]
  read_stamp _ _ = ok none

  unfoldable pub header_stamp : Json → Outcome (Option ℤ)
  unfolding read_stamp object_in member_of
  header_stamp j = elim (object_in "stamp" (object_in "header" (some j))) [
    | none ↦ ok none
    | some stamp ↦ read_stamp (member_of "sec" stamp) (member_of "nanosec" stamp)
  ]

  unfoldable pub ts_members : Option ℤ → ℤ → JsonMembers
  unfolding set_member
  ts_members none t1_ns = set_member "t1_ns" (number t1_ns) no_members
  ts_members (some t0_ns) t1_ns =
      set_member "t1_ns" (number t1_ns) (set_member "t0_ns" (number t0_ns) no_members)

  -- j["_ts"] = ts: null becomes an object, any other value that is not one throws.
  unfoldable pub with_ts : Json → JsonMembers → Outcome Json
  unfolding set_member
  with_ts (object ms) ts = ok (object (set_member "_ts" (object ts) ms))
  with_ts null ts = ok (object (set_member "_ts" (object ts) no_members))
  with_ts _ ts = thrown "type_error"

  unfoldable pub envelope : Json → ℤ → Outcome Json
  unfolding header_stamp ts_members with_ts
  envelope j t1_ns = elim (header_stamp j) [
    | ok t0 ↦ with_ts j (ts_members t0 t1_ns)
    | fail e ↦ fail e
    | thrown e ↦ thrown e
  ]

  -- The payload after the call; one that is no JSON stays as it is.
  unfoldable pub apply_ts_envelope_to_json : String → ℤ → Outcome String
  unfolding envelope
  apply_ts_envelope_to_json json_payload t1_ns = elim (nl.parse json_payload) [
    | none ↦ ok json_payload
    | some j ↦ elim (envelope j t1_ns) [
      | ok j' ↦ elim (nl.dump j') [ some s ↦ ok s | none ↦ thrown "dump" ]
      | fail e ↦ fail e
      | thrown e ↦ thrown e
    ]
  ]
