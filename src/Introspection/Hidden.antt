-- ===== src/Introspection/Hidden.antt =====
-- Which topics is_topic_hidden hides, and what the filter leaves.
use Prim.Native.Char.{code}
use ros2_dispatcher.Prelude.{
  String, Bool, true, false, ◌||◌, List, [], ◌∷◌, ◌≡◌, refl, arith, nat_eq, if◌then◌else◌, All,
  All-append, Bool-cases, inl, inr,
}
use ros2_dispatcher.Controller.Types.{TopicInfo}
use ros2_dispatcher.Introspection.Node.{
  starts_hidden, tokens, any_hidden, is_topic_hidden, Topics, Manager, without_hidden,
  filter_hidden_topics, infos_of, topic_infos, update_topics, handle_get_topics,
  publish_topics_info, same_topics,
}

-- The text has a `/` with a `_` right behind it.
abbrev pub slash_underscore : String → Bool
slash_underscore String.[] = false
slash_underscore (String.◌∷◌ c s) =
    let later = slash_underscore s in
    if nat_eq (code c) b'/' then starts_hidden s || later else later

first_token_hidden : (s : String) → starts_hidden (tokens s).0 ≡ starts_hidden s
unfolding tokens starts_hidden
first_token_hidden String.[] = refl
first_token_hidden (String.◌∷◌ c s) = elim (Bool-cases (nat_eq (code c) b'/')) [
  | inl slash ↦ rw slash (ground arith)
  | inr other ↦ rw other refl
]

later_tokens_hidden : (s : String) → any_hidden (tokens s).1 ≡ slash_underscore s
unfolding tokens any_hidden
later_tokens_hidden String.[] = refl
later_tokens_hidden (String.◌∷◌ c s) = ground (arith, first_token_hidden s, later_tokens_hidden s)

-- A topic is hidden exactly if its name starts with `_` or has a `_` right behind a `/`.
pub is_topic_hidden_iff : (s : String) → is_topic_hidden s ≡ (starts_hidden s || slash_underscore s)
unfolding is_topic_hidden any_hidden
is_topic_hidden_iff s = rw (first_token_hidden s, later_tokens_hidden s) refl

abbrev pub Visible : TopicInfo → Type 0
Visible info = is_topic_hidden info.name ≡ false

infos_of-Visible :
    (name : String) (types : List String)
    → is_topic_hidden name ≡ false
    → All Visible (infos_of name types)
unfolding infos_of
infos_of-Visible name [] h = tt
infos_of-Visible name (t ∷ ts) h = (h, infos_of-Visible name ts h)

without_hidden-Visible : (topics : Topics) → All Visible (topic_infos (without_hidden topics))
unfolding topic_infos without_hidden
without_hidden-Visible [] = tt
without_hidden-Visible ((name, types) ∷ rest) = elim (Bool-cases (is_topic_hidden name)) [
  | inl hidden ↦ rw hidden (without_hidden-Visible rest)
  | inr shown ↦ rw shown (
      All-append Visible (infos_of name types) (topic_infos (without_hidden rest))
        (infos_of-Visible name types shown) (without_hidden-Visible rest))
]

-- With filter_hidden set, after an update no topic that get_topics gives is hidden.
pub update_topics-Visible :
    (graph : Topics) (m : Manager)
    → m.filter_hidden ≡ true
    → All Visible (handle_get_topics (update_topics graph m))
unfolding handle_get_topics update_topics filter_hidden_topics publish_topics_info
update_topics-Visible graph m h =
    elim (Bool-cases (same_topics (without_hidden graph) m.previous_topics)) [
      | inl same ↦ rw (h, same) (without_hidden-Visible graph)
      | inr differ ↦ elim (Bool-cases m.publish_on_change) [
        | inl on ↦ rw (h, differ, on) (without_hidden-Visible graph)
        | inr off ↦ rw (h, differ, off) (without_hidden-Visible graph)
      ]
    ]
