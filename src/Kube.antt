-- ===== src/Kube.antt =====
-- What the controllers see of Kubernetes objects: API errors and pods (pkg/utils/pod.go).
-- The API server itself is not modelled: a handler takes the answers of its calls as arguments, and
-- returns the calls that it makes.
use juicefs_operator.Base.Text.{Text}
use juicefs_operator.Base.{
  ℕ, suc, String, Bool, true, false, ◌&&◌, Option, List, [], ◌∷◌, ◌==◌, Option, String,
  if◌then◌else◌,
}

-- The kinds of API error that the code tells apart.
pub data ApiError : Type 0 where
  not_found conflict already_exists other_error : ApiError

-- corev1.PodPhase; `unset` is the empty string.
pub data PodPhase : Type 0 where
  unset pending running succeeded failed unknown : PodPhase

pub data ConditionType : Type 0 where
  ready_condition containers_ready other_type : ConditionType

pub record Condition : Type 0 where
  pub type : ConditionType
  pub status_true : Bool

abbrev counts : Condition → Bool
counts c =
    c.status_true
    && elim c.type [ ready_condition ↦ true | containers_ready ↦ true | other_type ↦ false ]

conditions_true : List Condition → ℕ → ℕ
conditions_true [] n = n
conditions_true (c ∷ cs) n = conditions_true cs (if counts c then suc n else n)

-- The two conditions are counted, not told apart.
unfoldable pub is_pod_ready : List Condition → Bool
unfolding conditions_true
is_pod_ready conditions = conditions_true conditions 0 == 2

pub record EnvVar : Type 0 where
  pub name : String
  pub value : String

pub record Container : Type 0 where
  pub name : String
  pub env : List EnvVar

-- The annotations of a worker that the operator itself writes and reads, and the others in `extra`.
-- The two instants are those of the RFC3339 texts, which the operator writes.
pub record Annotations : Type 0 where
  pub backup_worker : Option ℕ
  pub waiting_delete : Option ℕ
  pub template : String
  pub mount_opts : Text
  pub worker_hash : String
  pub extra : List (String × String)

-- corev1.Pod, as far as the cache group controllers read it: `deleting` is a set deletion timestamp,
-- `image` and `command` are those of the first container, `command` its third word, the shell script.
pub record Pod : Type 0 where
  pub name : String
  pub node_name : String
  pub annotations : Annotations
  pub conditions : List Condition
  pub phase : PodPhase
  pub deleting : Bool
  pub containers : List Container
  pub image : Text
  pub command : Text

abbrev pub pod_ready : Pod → Bool
pod_ready p = is_pod_ready p.conditions
