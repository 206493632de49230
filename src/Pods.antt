-- ===== src/Pods.antt =====
-- Pods as pkg/utils/pod.go reads and places them: parseWorkerStats, MustParseWorkerMountCmds,
-- PodNotReadyReason, IsMountPointReady and AddNodeNameNodeAffinity. A panic is `none`.
pub mod Placement
use juicefs_operator.Base.{
  ℕ, zero, suc, ◌-◌, ◌*◌, String, Bool, true, false, not, ◌&&◌, ◌||◌, Option, none, some, List, [],
  ◌∷◌, ◌++◌, ltb, if◌then◌else◌, is_some, str_eq, ◌==◌,
}
use juicefs_operator.Base.Int.{ℤ, pos, negsuc}
use juicefs_operator.Base.Text.{
  last_line, Text, codes, text_eq, cut, split, has_prefix, contains_text, trim_space, parse_digits,
  max_int,
}
use juicefs_operator.Kube.{PodPhase}

abbrev in_range : ℕ → Option ℕ
in_range n = if ltb max_int n then none else some n

abbrev digits_of : Text → Option ℕ
digits_of [] = none
digits_of (c ∷ s) = parse_digits (c ∷ s) 0

abbrev positive : Option ℕ → Option ℤ
positive none = none
positive (some n) = if ltb max_int n then none else some (pos n)

abbrev negative : Option ℕ → Option ℤ
negative none = none
negative (some zero) = some (pos 0)
negative (some (suc n)) = if ltb max_int n then none else some (negsuc n)

-- `strconv.ParseInt(s, 10, 64)`: `none` for what is no number or out of range.
unfoldable pub parse_int : Text → Option ℤ
parse_int [] = none
parse_int (c ∷ s) =
    if c == b'-'
    then negative (digits_of s)
    else if c == b'+'
    then positive (digits_of s)
    else positive (digits_of (c ∷ s))

pub record Sample : Type 0 where
  pub cache_bytes : Option ℤ
  pub capacity_bytes : Option ℤ
  pub transfer_bytes : Option ℤ
  pub receive_bytes : Option ℤ
  pub uptime : Option ℤ

pub data Field : Type 0 where
  cache_field capacity_field transfer_field receive_field uptime_field : Field

unfoldable pub field_of : Text → Option Field
field_of key =
    if text_eq key (codes "blockcache.bytes")
    then some cache_field
    else if text_eq key (codes "blockcache.capacity")
    then some capacity_field
    else if text_eq key (codes "blockcache.transferBytes")
    then some transfer_field
    else if text_eq key (codes "remotecache.receiveBytes")
    then some receive_field
    else if text_eq key (codes "uptime")
    then some uptime_field
    else none

unfoldable pub set_field : Field → ℤ → Sample → Sample
set_field cache_field v s = record s { cache_bytes = some v }
set_field capacity_field v s = record s { capacity_bytes = some v }
set_field transfer_field v s = record s { transfer_bytes = some v }
set_field receive_field v s = record s { receive_bytes = some v }
set_field uptime_field v s = record s { uptime = some v }

abbrev key_of : Text → Text × Text
key_of line = elim (cut b':' line) [ none ↦ (line, []) | some kv ↦ kv ]

unfoldable pub read_lines : List Text → Sample → Option Sample
unfolding field_of set_field parse_int
read_lines [] s = some s
read_lines (l ∷ ls) s = elim (field_of (key_of l).0) [
  | none ↦ read_lines ls s
  | some f ↦ elim (parse_int (trim_space (key_of l).1)) [
    | none ↦ none
    | some v ↦ read_lines ls (set_field f v s)
  ]
]

abbrev pub empty_sample : Sample
empty_sample = record {
  cache_bytes = none;
  capacity_bytes = none;
  transfer_bytes = none;
  receive_bytes = none;
  uptime = none;
}

abbrev has_metrics : Sample → Bool
has_metrics s =
    is_some s.cache_bytes
    || is_some s.capacity_bytes
    || is_some s.transfer_bytes
    || is_some s.receive_bytes

-- The start of the process is the reading's instant less the uptime, which the sample keeps.
unfoldable pub parse_worker_stats : (stdout : Text) → Option Sample
unfolding read_lines
parse_worker_stats stdout = elim (read_lines (split 10 stdout) empty_sample) [
  | none ↦ none
  | some s ↦ if has_metrics s then some s else none
]

-- What the command `stat` answered: an error of the execution, its standard error and its output.
unfoldable pub is_mount_point_ready : (failed : Bool) → (stderr stdout : Text) → Bool
is_mount_point_ready failed stderr stdout =
    if failed && text_eq stderr []
    then false
    else if not (text_eq stderr [])
    then false
    else contains_text stdout (codes "Inode: 1")

-- The guard asks for five words, the body reads the sixth.
unfoldable pub must_parse_worker_mount_cmds : Text → Option (Text × List Text)
must_parse_worker_mount_cmds [] = none
must_parse_worker_mount_cmds (c ∷ s) =
    let cmds = last_line (split 10 (c ∷ s)) in
    if not (has_prefix (codes "exec") cmds) then none else elim (split b' ' cmds) [
      | _ ∷ _ ∷ vol_name ∷ _ ∷ _ ∷ options ∷ _ ↦ some (vol_name, split b',' options)
      | _ ↦ none
    ]

-- A container's state: waiting or terminated for a reason, or neither.
pub data ContainerState : Type 0 where
  is_waiting is_terminated : String → ContainerState
  is_running : ContainerState

container_reason : List ContainerState → String
container_reason [] = "Unknown"
container_reason (is_waiting r ∷ cs) = r
container_reason (is_terminated r ∷ cs) = r
container_reason (is_running ∷ cs) = container_reason cs

unfoldable pub pod_not_ready_reason : PodPhase → List ContainerState → String
unfolding container_reason
pod_not_ready_reason PodPhase.failed cs = "PodFailed"
pod_not_ready_reason _ cs = container_reason cs
