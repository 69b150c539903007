-- ===== src/Controller/World.antt =====
-- The other nodes, as the controller meets them: every call that it makes of a service, the clock
-- or the file system is logged, and what answers is a function of the log. So an answer may
-- depend on all that was called before it, and nothing is assumed of the other nodes.
use ros2_dispatcher.Prelude.{ℕ, String, Bool, Option, List, ◌∷◌}
use ros2_dispatcher.Controller.Types.{
  TopicInfo, Parameter, LifecycleState, Transition, Controller, Client,
}

-- composition_interfaces/srv/LoadNode: the request, and an answer.
pub record LoadRequest : Type 0 where
  pub package_name : String
  pub plugin_name : String
  pub node_name : String
  pub node_namespace : String
  pub parameters : List Parameter

pub record LoadReply : Type 0 where
  pub success : Bool
  pub unique_id : ℕ
  pub full_node_name : String

pub record ParameterResult : Type 0 where
  pub successful : Bool
  pub reason : String

-- A YAML document of yaml-cpp, as the controller takes it apart.
mutual
  pub data Yaml : Type 0 where
    null : Yaml
    scalar : String → Yaml
    sequence : YamlItems → Yaml
    mapping : YamlEntries → Yaml

  pub data YamlItems : Type 0 where
    items_end : YamlItems
    item : Yaml → YamlItems → YamlItems

  pub data YamlEntries : Type 0 where
    entries_end : YamlEntries
    entry : Yaml → Yaml → YamlEntries → YamlEntries

pub data Call : Type 0 where
  waited_for : Client → Call
  got_state : Client → Call
  changed_state : Client → Transition → Call
  set_parameters_of : Client → List Parameter → Call
  got_topics : Client → Call
  loaded_node : Client → LoadRequest → Call
  unloaded_node : Client → ℕ → Call
  read_clock : Call
  loaded_file : String → Call

-- The newest call first.
abbrev pub Log : Type 0
Log = List Call

-- What answers the newest call of the log. `none` stands for a timeout. A file gives a document,
-- or the text of a YAML::Exception.
pub record Env : Type 0 where
  pub service_ready : Log → Bool
  pub state_reply : Log → Option LifecycleState
  pub change_reply : Log → Option Bool
  pub parameters_reply : Log → Option (List ParameterResult)
  pub topics_reply : Log → Option (List TopicInfo)
  pub load_reply : Log → Option LoadReply
  pub unload_reply : Log → Option Bool
  pub clock : Log → ℕ
  pub file_document : Log → Option Yaml
  pub file_error : Log → String

-- The controller and the log.
pub record Sys : Type 0 where
  pub node : Controller
  pub log : Log

-- A method that returns `bool` with error_out: its result, or false with the error; or an
-- exception that leaves it. What was written before stays written.
pub data Outcome {ℓ} (A : Type ℓ) : Type ℓ where
  ok : A → Outcome A
  fail : String → Outcome A
  thrown : String → Outcome A

abbrev pub Action : Type 0 → Type 0
Action A = Sys → Outcome A × Sys

abbrev pub pure : {A : Type 0} → A → Action A
pure a s = (ok a, s)

abbrev pub fails : {A : Type 0} → String → Action A
fails e s = (fail e, s)

abbrev pub continue : {A B : Type 0} → Outcome A → (A → Action B) → Action B
continue (ok a) f s = f a s
continue (fail e) f s = (fail e, s)
continue (thrown e) f s = (thrown e, s)

infixl 5 ◌>>=◌ ◌>>◌
abbrev pub ◌>>=◌ : {A B : Type 0} → Action A → (A → Action B) → Action B
◌>>=◌ m f s = let r = m s in continue r.0 f r.1

abbrev pub ◌>>◌ : {A B : Type 0} → Action A → Action B → Action B
m >> k = m >>= λ _. k

abbrev pub gets : {A : Type 0} → (Controller → A) → Action A
gets f s = (ok (f s.node), s)

abbrev pub modify : (Controller → Controller) → Action (Unit {0})
modify f s = (ok tt, record s { node = f s.node })

-- A call, with what follows its failure and its success; an exception goes on.
abbrev pub settle : {A B : Type 0} → Outcome A → (String → Action B) → (A → Action B) → Action B
settle (ok a) failed done s = done a s
settle (fail e) failed done s = failed e s
settle (thrown e) failed done s = (thrown e, s)

abbrev pub attempt : {A B : Type 0} → Action A → (String → Action B) → (A → Action B) → Action B
attempt m failed done s = let r = m s in settle r.0 failed done r.1

-- Log a call, and read its answer.
unfoldable pub ask : {A : Type 0} → (Log → A) → Call → Action A
ask answer call s = (ok (answer (call ∷ s.log)), record s { log = call ∷ s.log })
