-- ===== src/WarmUp/MountInfo.antt =====
-- How the job of a warm-up mounts the file system: getSecretAuthCmd, getWarmUpMountInfo and
-- appendWarmupMountOpts of pkg/builder/job.go, with ParseWorkerMountInfo of pkg/utils/worker.go.
-- path.Join of the volume's name is written without its cleaning: the name has no slash.
pub mod Mounted
pub mod Spared
use native.Mathlib.Omega.{arith}
use juicefs_operator.Base.{
  String, Bool, true, false, not, ◌&&◌, Option, none, some, List, [], ◌∷◌, ◌++◌, if◌then◌else◌,
  from_option, lookup, All, All-map, ◌≡◌, refl,
}
use juicefs_operator.Base.Text.{Text, codes, text_eq, cut, join, split, trim_space}
use juicefs_operator.Builder.{parse_options, text_contains}
use juicefs_operator.Builder.Commands.{gen_auth_cmds}
use juicefs_operator.Pods.{must_parse_worker_mount_cmds}

unfoldable pub ignore_mount_opts : List Text
ignore_mount_opts =
    codes "foreground"
    ∷ codes "cache-size"
    ∷ codes "free-space-ratio"
    ∷ codes "group-weight"
    ∷ codes "cache-dir"
    ∷ codes "group-backup"
    ∷ codes "commission"
    ∷ codes "decommission"
    ∷ codes "cache-group"
    ∷ codes "no-sharing"
    ∷ codes "log"
    ∷ codes "no-syslog"
    ∷ []

-- What the handler reads of a worker pod; `v2_opts` is the annotation of a pod of the second version.
pub record Worker : Type 0 where
  pub shell_command : Text
  pub v2_opts : Option Text

pub record MountInfo : Type 0 where
  pub auth_cmd : Text
  pub vol_name : Text
  pub mount_opts : List Text

-- The command of a secret, with the volume's name.
unfoldable pub get_secret_auth_cmd : List (String × Text) → Text × Text
unfolding gen_auth_cmds
get_secret_auth_cmd secret =
    let vol_name = trim_space (from_option [] (lookup "name" secret)) in
    (
      join b' ' (gen_auth_cmds vol_name (from_option [] (lookup "initconfig" secret)) secret),
      vol_name,
    )

abbrev first_line : Text → Text
first_line s = elim (cut 10 s) [ none ↦ s | some p ↦ p.0 ]

-- `none` is the panic of a command with too few words.
unfoldable pub parse_worker_mount_info : Worker → Option (Text × List Text)
parse_worker_mount_info w = elim (must_parse_worker_mount_cmds w.shell_command) [
  | none ↦ none
  | some p ↦ elim w.v2_opts [ none ↦ some p | some opts ↦ some (p.0, split b',' opts) ]
]

abbrev pub key_of : Text → Text
key_of opt = elim (cut b'=' opt) [ none ↦ opt | some p ↦ p.0 ]

abbrev pub keys_of : List Text → List Text
keys_of [] = []
keys_of (o ∷ os) = key_of o ∷ keys_of os

unfoldable pub adds : (existing : List Text) → Text → Bool
unfolding text_contains ignore_mount_opts
adds existing key =
    not (text_eq key [])
    && not (text_contains ignore_mount_opts key)
    && not (text_contains existing key)

-- The options of the spec that are added, as pairs.
unfoldable pub new_options : (existing : List Text) → List (Text × Text) → List (Text × Text)
new_options existing [] = []
new_options existing (o ∷ os) = elim (adds existing o.0) [
  | false ↦ new_options existing os
  | true ↦ o ∷ new_options (o.0 ∷ existing) os
]

abbrev pub option_text : Text × Text → Text
option_text (k, v) = if text_eq v [] then k else k ++ b'=' ∷ v

abbrev pub option_texts : List (Text × Text) → List Text
option_texts [] = []
option_texts (o ∷ os) = option_text o ∷ option_texts os

unfoldable pub append_warmup_mount_opts : (base extra : List Text) → List Text
append_warmup_mount_opts base extra =
    base ++ option_texts (new_options (keys_of base) (parse_options extra))

-- The options of the worker without those that only a worker has.
unfoldable pub kept_opts : List Text → List Text
kept_opts [] = []
kept_opts (o ∷ os) =
    let rest = kept_opts os in if text_contains ignore_mount_opts (key_of o) then rest else o ∷ rest

abbrev pub first_opts : Text → List Text
first_opts cache_group_name =
    (codes "cache-group=" ++ cache_group_name)
    ∷ codes "no-sharing"
    ∷ codes "cache-size=0"
    ∷ codes "log=/dev/stdout"
    ∷ codes "no-syslog"
    ∷ []

unfoldable pub get_warm_up_mount_info :
    (cache_group_name : Text)
    → Option Worker
    → (secret : List (String × Text)) → (extra : List Text) → Option MountInfo
unfolding get_secret_auth_cmd parse_worker_mount_info kept_opts append_warmup_mount_opts
get_warm_up_mount_info cache_group_name none secret extra = some (record {
  auth_cmd = (get_secret_auth_cmd secret).0;
  vol_name = (get_secret_auth_cmd secret).1;
  mount_opts = append_warmup_mount_opts (first_opts cache_group_name) extra;
})
get_warm_up_mount_info cache_group_name (some w) secret extra = elim (parse_worker_mount_info w) [
  | none ↦ none
  | some p ↦ some (record {
    auth_cmd = first_line w.shell_command;
    vol_name = p.0;
    mount_opts = append_warmup_mount_opts (first_opts cache_group_name ++ kept_opts p.1) extra;
  })
]

-- Of a longer list of names, the tail rules out less.
adds_tail :
    (x : Text) (existing : List Text) (t : Text)
    → adds (x ∷ existing) t ≡ true
    → adds existing t ≡ true
unfolding adds text_contains
adds_tail x existing t h = grind arith

adds_case :
    (existing : List Text) (o : Text × Text) (b : Bool) (xs ys : List (Text × Text))
    → adds existing o.0 ≡ b
    → All (λ (p : Text × Text). adds existing p.0 ≡ true) xs
    → All (λ (p : Text × Text). adds (o.0 ∷ existing) p.0 ≡ true) ys
    → All (λ (p : Text × Text). adds existing p.0 ≡ true) (elim b [ false ↦ xs | true ↦ o ∷ ys ])
adds_case existing o false xs ys e hx hy = hx
adds_case existing o true xs ys e hx hy =
    (e, All-map (λ (p : Text × Text). adds_tail o.0 existing p.0) ys hy)

-- Each option that is added has a name, none that only a worker has, and none of the names before.
pub new_options-adds :
    (existing : List Text) (os : List (Text × Text))
    → All (λ (o : Text × Text). adds existing o.0 ≡ true) (new_options existing os)
unfolding new_options
new_options-adds existing [] = tt
new_options-adds existing (o ∷ os) =
    adds_case existing o (adds existing o.0) (new_options existing os)
      (new_options (o.0 ∷ existing) os) refl (new_options-adds existing os)
      (new_options-adds (o.0 ∷ existing) os)
