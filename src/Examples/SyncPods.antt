-- ===== src/Examples/SyncPods.antt =====
-- The commands and volumes of the pods of a sync, on concrete endpoints.
use juicefs_operator.Base.Text.{text_eq, strip_prefix, split, join, Text, codes}
use juicefs_operator.Base.{ℕ, zero, suc, ◌≡◌, refl, true, false, none, some, [], ◌∷◌, ◌++◌}
use juicefs_operator.Sync.Sinks.{Parsed}
use juicefs_operator.Sync.Command.{
  gen_sync_commands, gen_prepare_command, gen_manager_envs, worker_ips_env, ExtraVolume, Volumes,
  of_config_map, worker_keys, gen_sync_volumes,
}

abbrev strokes : ℕ → Text
strokes zero = []
strokes (suc n) = b'I' ∷ strokes n

abbrev end : Text → Text → Parsed
end uri prepare = record { uri = uri; envs = []; prepare_command = prepare; files_from = none }

-- The value of the second option is lost.
command :
    gen_sync_commands
      (codes "10.0.0.1" ∷ [])
      (codes "--threads=4" ∷ codes "match=a=b" ∷ [])
      (end (codes "s3://a/") [])
      (end (codes "s3://b/") [])
    ≡ codes "juicefs sync --worker $WORKER_IPS --threads 4 --match s3://a/ s3://b/"
unfolding gen_sync_commands join split strip_prefix
command = refl

prepare_once : gen_prepare_command (end [] (codes "auth")) (end [] (codes "auth")) ≡ codes "auth"
unfolding gen_prepare_command text_eq
prepare_once = refl

prepare_both :
    gen_prepare_command (end [] (codes "a")) (end [] (codes "b")) ≡ codes "a" ++ 10 ∷ codes "b"
unfolding gen_prepare_command text_eq
prepare_both = refl

ips :
    gen_manager_envs [] (codes "1" ∷ codes "2" ∷ []) (end [] []) (end [] [])
    ≡ (worker_ips_env (codes "1,2") ∷ [])
unfolding gen_manager_envs join
ips = refl

abbrev config : ExtraVolume
config = record {
  config_map = some (codes "shared", codes "/a");
  secret = none;
  host_path = none;
  pvc = none;
}

abbrev secret_of_same_name : ExtraVolume
secret_of_same_name = record {
  config_map = none;
  secret = some (codes "shared", codes "/b");
  host_path = none;
  pvc = none;
}

abbrev one_volume : Volumes
one_volume = record {
  volumes = (codes "shared", of_config_map (codes "shared")) ∷ (codes "ssh-keys", worker_keys) ∷ [];
  mounts = (codes "shared", codes "/a") ∷ (codes "ssh-keys", codes "/root/ssh") ∷ [];
}

-- A secret of the name of a config map is not mounted.
name_taken :
    gen_sync_volumes strokes false true true (config ∷ []) (secret_of_same_name ∷ []) ≡ one_volume
unfolding gen_sync_volumes text_eq
name_taken = refl
