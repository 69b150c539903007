-- ===== src/Source/Entries.antt =====
-- kafka_source_node.cpp: the entries of the metrics of kafka_source.
use ros2_dispatcher.Prelude.{
  ℕ, ◌+◌, ◌-◌, ◌*◌, ◌%◌, ◌≤◌, All, String, Option, none, some, List, [], ◌∷◌, ◌≡◌, ◌≢◌, ◌⊎◌, refl,
  true, false, arith, length, eq_iff, ◌==◌, ◌⊕◌, pos, negsuc, ℤ, Bool-cases, inl, inr,
}
use ros2_dispatcher.OrderedMap.{find}
use ros2_dispatcher.Producer.Types.{u64_mod}
use ros2_dispatcher.Sink.Accounting.{push_sample-bounded}
use ros2_dispatcher.Sink.Stream.{max_samples}
use ros2_dispatcher.Source.Stream.{
  new_metrics, note_latency, note_timestamp, note_received, note_decoded, note_failed, ensure_entry,
  update_entry,
}
use ros2_dispatcher.Source.Topics.{put}
use ros2_dispatcher.Source.Types.{TopicMetrics, Message}

-- How many messages the entry is behind: each message that it has received is decoded or failed.
abbrev pub Behind : ℕ → TopicMetrics → Type 0
Behind n t =
    ((t.decoded + t.failed + n) % u64_mod ≡ t.received % u64_mod)
    × (length t.latency_samples ≤ max_samples)

abbrev pub Named : String → TopicMetrics → Type 0
Named key t = key ≡ t.ros_topic ⊕ "|" ⊕ t.ros_type

abbrev pub IsFair : String × TopicMetrics → Type 0
IsFair (key, t) = Named key t × Behind 0 t

-- There is an entry under the key, and it is one message behind; the others are fair.
abbrev pub OneBehind : String → List (String × TopicMetrics) → Type 0
OneBehind key [] = ⊥
OneBehind key ((k, t) ∷ m) =
    ((k ≡ key) × (Named k t × Behind 1 t) × All IsFair m)
    ⊎ ((k ≢ key) × IsFair (k, t) × OneBehind key m)

note_timestamp-same :
    (stamp : Option ℤ) (now : ℕ) (t : TopicMetrics) (n : ℕ) (key : String)
    → Named key t × Behind n t
    → Named key (note_timestamp stamp now t) × Behind n (note_timestamp stamp now t)
unfolding note_timestamp note_latency
note_timestamp-same none now t n key h = h
note_timestamp-same (some (negsuc k)) now t n key h = h
note_timestamp-same (some (pos k)) now t n key (name, (counts, bound)) =
    ground (arith, push_sample-bounded (now - k * 1000000) t.latency_samples bound)

note_received-Behind :
    (m : Message) (key : String) (t : TopicMetrics)
    → IsFair (key, t)
    → Named key (note_received m t) × Behind 1 (note_received m t)
unfolding note_received
note_received-Behind m key t (name, (counts, bound)) =
    let t' : TopicMetrics = record t {
      received = (t.received + 1) % u64_mod;
      bytes = (t.bytes + length m.payload) % u64_mod;
    } in
    note_timestamp-same m.timestamp m.system_ns t' 1 key (name, (ground arith, bound))

pub note_decoded-IsFair :
    (key : String) (t : TopicMetrics) → Named key t × Behind 1 t → IsFair (key, note_decoded t)
unfolding note_decoded
note_decoded-IsFair key t (name, (counts, bound)) = (name, (ground arith, bound))

pub note_failed-IsFair :
    (key : String) (t : TopicMetrics) → Named key t × Behind 1 t → IsFair (key, note_failed t)
unfolding note_failed
note_failed-IsFair key t (name, (counts, bound)) = (name, (ground arith, bound))

put-All :
    (P : String × TopicMetrics → Type 0) (k : String) (v : TopicMetrics)
    (m : List (String × TopicMetrics))
    → All P m
    → P (k, v)
    → All P (put k v m)
unfolding put
put-All P k v [] h q = (q, tt)
put-All P k v ((j, w) ∷ m) (h, hs) q = elim (Bool-cases (j == k)) [
  | inl e ↦ rw e (q, hs)
  | inr e ↦ rw e (h, put-All P k v m hs q)
]

find-put :
    (k : String) (v : TopicMetrics) (m : List (String × TopicMetrics)) → find k (put k v m) ≡ some v
unfolding find put
find-put k v [] = ground (arith, eq_iff k k)
find-put k v ((j, w) ∷ m) = elim (Bool-cases (j == k)) [
  | inl e ↦ ground (arith, e, eq_iff k k)
  | inr e ↦ rw (e, e) (find-put k v m)
]

-- An entry that has counted one more message is behind, and the others stay fair.
update_entry-OneBehind :
    (msg : Message) (key : String) (t : TopicMetrics) (m : List (String × TopicMetrics))
    → All IsFair m
    → find key m ≡ some t
    → OneBehind key (update_entry key (note_received msg) m)
unfolding update_entry find
update_entry-OneBehind msg key t [] h found = ground (arith, found)
update_entry-OneBehind msg key t ((k, w) ∷ m) (h, hs) found = elim (Bool-cases (k == key)) [
  | inl e ↦
      let same : k ≡ key = ground (arith, e, eq_iff k key) in
      rw e (inl (same, note_received-Behind msg k w h, hs))
  | inr e ↦
      let other : k ≢ key = ground (arith, e, eq_iff k key) in
      rw e (inr (other, h, update_entry-OneBehind msg key t m hs (rw e at found)))
]

pub ensure_entry-OneBehind :
    (msg : Message) (topic type : String) (m : List (String × TopicMetrics))
    → All IsFair m
    → let key = topic ⊕ "|" ⊕ type in
      OneBehind key (update_entry key (note_received msg) (ensure_entry key topic type m))
unfolding ensure_entry new_metrics
ensure_entry-OneBehind msg topic type m h = split (find (topic ⊕ "|" ⊕ type) m) refl
  where
    split :
        (r : Option TopicMetrics)
        → find (topic ⊕ "|" ⊕ type) m ≡ r
        → let key = topic ⊕ "|" ⊕ type in
          OneBehind key (
            update_entry key
              (note_received msg)
              (elim r [ some t ↦ m | none ↦ put key (new_metrics topic type) m ]))
    split none e =
        let key = topic ⊕ "|" ⊕ type in
        let fresh = new_metrics topic type in
        update_entry-OneBehind msg key fresh (put key fresh m)
          (put-All IsFair key fresh m h (refl, (refl, ground arith))) (find-put key fresh m)
    split (some t) e = update_entry-OneBehind msg (topic ⊕ "|" ⊕ type) t m h e

-- The entry that is behind catches up.
pub update_entry-AllFair :
    (key : String) (f : TopicMetrics → TopicMetrics) (m : List (String × TopicMetrics))
    → ((k : String) (t : TopicMetrics) → Named k t × Behind 1 t → IsFair (k, f t))
    → OneBehind key m
    → All IsFair (update_entry key f m)
unfolding update_entry
update_entry-AllFair key f [] fair h = absurd h
update_entry-AllFair key f ((k, t) ∷ m) fair (inl (same, h, hs)) =
    let e : k == key ≡ true = ground (arith, same, eq_iff k key) in rw e (fair k t h, hs)
update_entry-AllFair key f ((k, t) ∷ m) fair (inr (other, h, hs)) =
    let e : k == key ≡ false = ground (arith, other, eq_iff k key) in
    rw e (h, update_entry-AllFair key f m fair hs)
