-- ===== src/Sink/Envelope/Members.antt =====
-- kafka_sink_node.cpp: the members of a payload that has passed apply_ts_envelope_to_json.
use ros2_dispatcher.Prelude.{
  ℕ, ◌+◌, ◌*◌, ◌%◌, ◌^◌, ◌<◌, String, some, ◌≡◌, ◌≢◌, ap, ◌∙◌, arith, eq_iff, ℤ, pos,
}
use ros2_dispatcher.Controller.World.{ok}
use ros2_dispatcher.Json.{
  Json, number, object, JsonMembers, no_members, find_member, set_member, member_of, Nlohmann,
  add_int, scale_int, find_member-set_member,
}
use ros2_dispatcher.Sink.Envelope.{
  wrap_int64, signed64, sum_ns, object_in, get_int64, stamp_ns, read_stamp, header_stamp,
  ts_members, with_ts, envelope,
}

-- The object `ms` has the stamp of a std_msgs/Header, with these parts.
pub record HasStamp (ms : JsonMembers) (sec nanosec : ℕ) : Type 0 where
  pub header : JsonMembers
  pub stamp : JsonMembers
  pub header_is : find_member "header" ms ≡ some (object header)
  pub stamp_is : find_member "stamp" header ≡ some (object stamp)
  pub sec_is : find_member "sec" stamp ≡ some (number (pos sec))
  pub nanosec_is : find_member "nanosec" stamp ≡ some (number (pos nanosec))

-- `ns` is `ms` but for its `_ts`, which has both times.
pub record IsStamped (ms ns : JsonMembers) (t0 t1 : ℤ) : Type 0 where
  pub times : JsonMembers
  pub times_are : find_member "_ts" ns ≡ some (object times)
  pub t0_is : find_member "t0_ns" times ≡ some (number t0)
  pub t1_is : find_member "t1_ns" times ≡ some (number t1)
  pub others : (key : String) → key ≢ "_ts" → find_member key ns ≡ find_member key ms

signed64-small : (n : ℕ) → n < 2 ^ 63 → signed64 (pos n) ≡ pos n
unfolding signed64
signed64-small n h = let same : n % 2 ^ 64 ≡ n = omega arith in rw same (ground arith)

sum_ns-small :
    (sec nanosec : ℕ)
    → 1000000000 * sec + nanosec < 2 ^ 63
    → sum_ns (pos sec) (pos nanosec) ≡ pos (1000000000 * sec + nanosec)
unfolding sum_ns add_int scale_int
sum_ns-small sec nanosec h =
    rw (signed64-small (1000000000 * sec) (omega arith))
      (signed64-small (1000000000 * sec + nanosec) h)

module _ (nl : Nlohmann) where
  get_int64-small : (n : ℕ) → n < 2 ^ 63 → get_int64 nl (number (pos n)) ≡ ok (pos n)
  unfolding get_int64 wrap_int64
  get_int64-small n h = ground arith

  stamp_ns-sum :
      (sec nanosec : ℕ)
      → 1000000000 * sec + nanosec < 2 ^ 63
      → 0 < sec + nanosec
      → stamp_ns nl (pos sec) (pos nanosec) ≡ some (pos (1000000000 * sec + nanosec))
  unfolding stamp_ns
  stamp_ns-sum sec nanosec bound h = ground (arith, sum_ns-small sec nanosec bound)

  object_in-member :
      (key : String) (ms inner : JsonMembers)
      → find_member key ms ≡ some (object inner)
      → object_in key (some (object ms)) ≡ some (object inner)
  unfolding object_in member_of
  object_in-member key ms inner h = ground arith

  read_stamp-sum :
      (sec nanosec : ℕ)
      → 1000000000 * sec + nanosec < 2 ^ 63
      → 0 < sec + nanosec
      → read_stamp nl (some (number (pos sec))) (some (number (pos nanosec)))
        ≡ ok (some (pos (1000000000 * sec + nanosec)))
  unfolding read_stamp
  read_stamp-sum sec nanosec bound c = ground (
    arith,
    get_int64-small sec (omega arith),
    get_int64-small nanosec (omega arith),
    stamp_ns-sum sec nanosec bound c,
  )

  header_stamp-read :
      (j : Json) (stamp : JsonMembers)
      → object_in "stamp" (object_in "header" (some j)) ≡ some (object stamp)
      → header_stamp nl j ≡ read_stamp nl (find_member "sec" stamp) (find_member "nanosec" stamp)
  unfolding header_stamp member_of
  header_stamp-read j stamp h = ground arith

  header_stamp-sum :
      (ms : JsonMembers) (sec nanosec : ℕ)
      → HasStamp ms sec nanosec
      → 1000000000 * sec + nanosec < 2 ^ 63
      → 0 < sec + nanosec
      → header_stamp nl (object ms) ≡ ok (some (pos (1000000000 * sec + nanosec)))
  header_stamp-sum ms sec nanosec h bound c =
      header_stamp-read (object ms) h.stamp (
        ap (λ j. object_in "stamp" j) (object_in-member "header" ms h.header h.header_is)
        ∙ object_in-member "stamp" h.header h.stamp h.stamp_is)
      ∙ (rw (h.sec_is, h.nanosec_is) (read_stamp-sum sec nanosec bound c))

  envelope-with_ts :
      (j : Json) (t0 t1 : ℤ)
      → header_stamp nl j ≡ ok (some t0)
      → envelope nl j t1 ≡ with_ts nl j (ts_members nl (some t0) t1)
  unfolding envelope
  envelope-with_ts j t0 t1 h = ground arith

  -- A payload that is an object with a header's stamp, whose parts are not negative and not both
  -- zero and whose nanoseconds fit in an int64_t, passes: its `_ts` gets the stamp in nanoseconds
  -- and the time of the message, and every other member stays.
  pub envelope-IsStamped :
      (ms : JsonMembers) (sec nanosec : ℕ) (t1 : ℤ)
      → HasStamp ms sec nanosec
      → 1000000000 * sec + nanosec < 2 ^ 63
      → 0 < sec + nanosec
      → (ns : JsonMembers) × (envelope nl (object ms) t1 ≡ ok (object ns))
        × IsStamped ms ns (pos (1000000000 * sec + nanosec)) t1
  unfolding ts_members with_ts set_member find_member
  envelope-IsStamped ms sec nanosec t1 h bound c =
      let t0 = pos (1000000000 * sec + nanosec) in
      let ts = set_member "t1_ns" (number t1) (set_member "t0_ns" (number t0) no_members) in
      (
        set_member "_ts" (object ts) ms,
        envelope-with_ts (object ms) t0 t1 (header_stamp-sum ms sec nanosec h bound c),
        record {
          times = ts;
          times_are = find_member-set_member "_ts" "_ts" (object ts) ms;
          t0_is =
              find_member-set_member "t1_ns" "t0_ns" (number t1)
                (set_member "t0_ns" (number t0) no_members);
          t1_is =
              find_member-set_member "t1_ns" "t1_ns" (number t1)
                (set_member "t0_ns" (number t0) no_members);
          others = λ key ne.
              ground (arith, eq_iff "_ts" key, find_member-set_member "_ts" key (object ts) ms, ne);
        },
      )
