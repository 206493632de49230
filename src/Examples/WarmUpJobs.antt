-- ===== src/Examples/WarmUpJobs.antt =====
-- The jobs of warm-ups, built out of a secret.
use juicefs_operator.Builder.Configs.{text_before}
use mathlib.Core.List.{Permᴰ}
use juicefs_operator.Base.{ℕ, ◌≡◌, refl, none, some, [], ◌∷◌, Pairwise, map, Option, List}
use juicefs_operator.Base.Text.{Text, codes, text_eq}
use juicefs_operator.Builder.Worker.MapOrder.{Differ}
use juicefs_operator.Builder.Worker.Parts.{EnvVar}
use juicefs_operator.WarmUp.Jobs.Parts.{Spec, JobBuilder, Outside, Job}
use juicefs_operator.WarmUp.Jobs.{new_warm_up_job, new_warm_up_cron_job}
use juicefs_operator.WarmUp.Jobs.Stable.{reading, new_warm_up_cron_job-perm}

abbrev spec : Spec ℕ
spec = record {
  name = codes "nightly";
  namespace = codes "default";
  secret_ref = codes "vol-secret";
  mount_options = [];
  backoff_limit = none;
  labels = [];
  annotations = [];
  tolerations = 0;
  node_selector = 0;
  service_account_name = [];
  host_network = none;
  scheduler_name = [];
  dns_policy = none;
  affinity = none;
  enable_service_links = none;
  targets = record {
    targets_from = some (record { files = []; file_path = [] });
    targets = [];
    options = [];
  };
  files_from = some (codes "list", codes "paths");
  resources = 0;
  image = codes "juicedata/mount:ee-5.2.11-x";
  image_pull_policy = none;
  image_pull_secrets = none;
  env = [];
  schedule = codes "0 1 * * *";
  suspend = none;
}

abbrev builder : JobBuilder ℕ
builder = record {
  wu = spec;
  worker = none;
  secret = ("name", codes "vol") ∷ ("envs", codes "{}") ∷ [];
  cache_group_name = codes "cg";
}

abbrev outside : Outside ℕ
outside = record {
  show = λ _. codes "1";
  parse_envs = λ _. none;
  parse_configs = λ _. none;
  cal_md5 = λ _. codes "0123456789abcdef0123456789abcdef";
  gen_hash = λ _. codes "hash";
}

abbrev first : Text × Text
first = (codes "b", codes "1")

abbrev second : Text × Text
second = (codes "a", codes "2")

first-second-Differ : Pairwise Differ (first ∷ second ∷ [])
unfolding text_eq
first-second-Differ = ((refl, tt), (tt, tt))

abbrev names : Option (Job ℕ) → List Text
names none = []
names (some job) = map (λ (e : EnvVar ℕ). e.name) job.env

-- The variables come out in the order of their names.
env_sorted :
    names (new_warm_up_job (reading (first ∷ second ∷ []) outside) builder)
    ≡ codes "SECRET_KEY" ∷ codes "SECRET_KEY_2" ∷ codes "TOKEN" ∷ codes "a" ∷ codes "b" ∷ []
unfolding new_warm_up_job text_eq text_before
env_sorted = refl

abbrev mounts : Option (Job ℕ) → List (Text × Text)
mounts none = []
mounts (some job) = job.volume_mounts

-- The config map of files is a folder where the command wants a file.
folder_of_files :
    mounts (new_warm_up_job outside builder) ≡ (codes "files-from", codes "/tmp/filelist.txt") ∷ []
unfolding new_warm_up_job text_eq
folder_of_files = refl

new_warm_up_cron_job-perm_example :
    new_warm_up_cron_job (reading (first ∷ second ∷ []) outside) builder
    ≡ new_warm_up_cron_job (reading (second ∷ first ∷ []) outside) builder
new_warm_up_cron_job-perm_example =
    new_warm_up_cron_job-perm (first ∷ second ∷ []) (second ∷ first ∷ []) (Permᴰ.swap refl refl)
      first-second-Differ outside builder
