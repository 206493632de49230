-- ===== src/Examples/Workers.antt =====
-- The theorems about worker pods on a concrete template.
use juicefs_operator.Base.Text.{trim_space, join, Text, codes, text_eq}
use juicefs_operator.Labels.{truncate_label_value}
use mathlib.Core.List.{Permᴰ}
use juicefs_operator.Base.{
  ℕ, String, Bool, true, false, none, some, List, [], ◌∷◌, ◌≡◌, refl, map, lookup, Pairwise,
}
use juicefs_operator.Builder.CacheDirs.{host_path}
use juicefs_operator.Builder.Worker.{Outside, new_worker, new_cache_group_worker}
use juicefs_operator.Builder.Worker.Parts.{
  Spec, PodBuilder, EnvVar, plain, new_pod_builder, vol_name, text,
}
use juicefs_operator.Builder.Worker.Hash.{joining, settled, JoinsOnly?, new_worker-JoinsOnly}
use juicefs_operator.Builder.Worker.MapOrder.{Differ, reading, new_worker-perm}
use juicefs_operator.Builder.Worker.ReadBack.{ReadsBack, new_worker-ReadsBack}
use juicefs_operator.Builder.Worker.Promise.{Marked, new_cache_group_worker-Marked}
use juicefs_operator.Builder.Worker.Script.{IsWord, script_of}
use juicefs_operator.Examples.{cache_group}

abbrev spec : Spec ℕ
spec = record {
  labels = ("team", codes "ml") ∷ [];
  annotations = [];
  host_network = none;
  dns_policy = none;
  image_pull_secrets = none;
  affinity = none;
  tolerations = 0;
  scheduler_name = 0;
  service_account_name = 0;
  enable_service_links = 0;
  image_pull_policy = 0;
  liveness_probe = 0;
  startup_probe = 0;
  readiness_probe = none;
  security_context = none;
  lifecycle = none;
  resources = some 7;
  volumes = [];
  volume_mounts = [];
  volume_devices = [];
  image = codes "juicedata/mount:ee-5.4.4-abc";
  env = record { name = codes "CACHE"; source = plain (codes "1") } ∷ [];
  opts = codes "cache-size=1024" ∷ [];
  cache_dirs =
      record {
        type = host_path;
        path = codes "/data";
        name = [];
        block = false;
        format = false;
        volume_claim_template = none;
      }
      ∷ [];
}

abbrev secret : List (String × Text)
secret = ("name", codes " vol ") ∷ ("token", codes "t") ∷ ("envs", codes "{..}") ∷ []

abbrev first : Text × Text
first = (codes "HOME", codes "/root")

abbrev second : Text × Text
second = (codes "DEBUG", codes "1")

-- The hash of the tests is the text of the command and the number of variables.
abbrev outside : Outside ℕ
outside = record {
  show = λ n. codes "0";
  parse_envs = λ _. some (first ∷ second ∷ []);
  parse_configs = λ _. none;
  cal_md5 = λ s. s;
  operator_pod = some ("default", 3);
  gen_hash = λ w. script_of w.command;
  now = 42;
}

abbrev builder_of : Bool → PodBuilder ℕ
builder_of join = new_pod_builder cache_group secret (codes "sec") none "node-a" spec join

built_command :
    elim (new_cache_group_worker outside (builder_of true) false) [
      | none ↦ []
      | some w ↦ script_of w.command
    ]
    ≡ codes
        "/usr/bin/juicefs auth vol --token ${TOKEN}\nexec /sbin/mount.juicefs vol /mnt/jfs -o \"$(cat /etc/juicefs-worker/mount-opts)\""
unfolding new_cache_group_worker truncate_label_value new_pod_builder join text_eq trim_space
built_command = refl

env_names :
    elim (new_cache_group_worker outside (builder_of true) false) [
      | none ↦ []
      | some w ↦ map (λ (e : EnvVar ℕ). e.name) w.env
    ]
    ≡ codes "CACHE"
      ∷ codes "DEBUG"
      ∷ codes "HOME"
      ∷ codes "SECRET_KEY"
      ∷ codes "SECRET_KEY_2"
      ∷ codes "TOKEN"
      ∷ []
unfolding new_cache_group_worker truncate_label_value new_pod_builder
env_names = refl

options_annotation :
    elim (new_cache_group_worker outside (builder_of true) false) [
      | none ↦ none
      | some w ↦ lookup "juicefs.io/worker-mount-opts" w.annotations
    ]
    ≡ some (
        text (
          codes
            "foreground,no-update,cache-group=default-cg,cache-size=1024,cache-dir=/var/jfsCache-0,commission"))
unfolding new_cache_group_worker truncate_label_value new_pod_builder join trim_space text_eq
options_annotation = refl

vol-IsWord : IsWord (vol_name (builder_of true))
unfolding vol_name trim_space new_pod_builder
vol-IsWord = record { no_space = refl; no_break = refl }

new_worker-JoinsOnly_example :
    JoinsOnly? outside
      (builder_of true)
      (new_worker outside (joining (builder_of true)) false true)
      (new_worker outside (settled (builder_of true)) false true)
new_worker-JoinsOnly_example = new_worker-JoinsOnly outside (builder_of true) false

first-second-Differ : Pairwise Differ (first ∷ second ∷ [])
unfolding text_eq
first-second-Differ = ((refl, tt), (tt, tt))

new_worker-perm_example :
    new_worker (reading (first ∷ second ∷ []) outside) (builder_of true) false true
    ≡ new_worker (reading (second ∷ first ∷ []) outside) (builder_of true) false true
new_worker-perm_example =
    new_worker-perm (first ∷ second ∷ []) (second ∷ first ∷ []) (Permᴰ.swap refl refl)
      first-second-Differ outside (builder_of true) false true

new_worker-ReadsBack_example :
    ReadsBack outside (builder_of true) (new_worker outside (builder_of true) false true)
new_worker-ReadsBack_example = new_worker-ReadsBack outside (builder_of true) false vol-IsWord

new_cache_group_worker-Marked_example :
    Marked true (new_cache_group_worker outside (builder_of true) false)
unfolding new_pod_builder
new_cache_group_worker-Marked_example =
    new_cache_group_worker-Marked outside (builder_of true) false refl
