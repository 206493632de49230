-- ===== src/Examples/Logs.antt =====
-- The logs and metrics of a sync and the commands of a worker on concrete texts.
use juicefs_operator.Base.Text.{
  join, parse_digits, span_digits, trim_space, text_eq, has_prefix, atoi, split, cut, contains_text,
  Text, codes,
}
use juicefs_operator.Base.{ℕ, zero, suc, ◌≡◌, refl, true, false, none, some, [], ◌∷◌, ◌++◌}
use juicefs_operator.Base.Int.{pos, negsuc}
use juicefs_operator.Sync.Logs.{get_metrics_port_with_options, parse_sync_metrics, parse_log}
use juicefs_operator.Builder.Commands.{gen_auth_cmds, with_join_option, gen_shell_commands}
use juicefs_operator.Builder.CacheDirs.{
  volume_claim_templates, CacheDir, Dirs, on_host, gen_cache_dirs,
}

given_port :
    get_metrics_port_with_options (codes "--threads=4" ∷ codes "--metrics=0.0.0.0:9999" ∷ [])
    ≡ pos 9999
unfolding get_metrics_port_with_options contains_text cut split atoi
given_port = refl

no_port : get_metrics_port_with_options (codes "--metrics=9999" ∷ []) ≡ pos 9567
unfolding get_metrics_port_with_options contains_text cut split
no_port = refl

-- A port out of range wraps around.
large_port : get_metrics_port_with_options (codes "metrics=h:4294967295" ∷ []) ≡ negsuc 0
unfolding get_metrics_port_with_options contains_text cut split atoi
large_port = refl

metrics :
    parse_sync_metrics
      (λ t. some t)
      (codes "# HELP" ++ 10 ∷ codes "juicefs_sync_copied{cmd=\"sync\"} 4" ++ 10 ∷ [])
    ≡ some ((codes "juicefs_sync_copied", codes "4") ∷ [])
unfolding parse_sync_metrics split has_prefix text_eq cut trim_space
metrics = refl

log :
    parse_log
      (λ t. t)
      (λ t. some 7)
      (codes "start"
        ++ 10 ∷ codes "juicefs[1] <INFO>: Found: 4, skipped: 0 (0 B), failed: x [sync.go:1387]")
    ≡ some ((codes "Found", 4) ∷ (codes "skipped", 0) ∷ (codes "skipped_bytes", 7) ∷ [])
unfolding parse_log split contains_text trim_space cut span_digits parse_digits text_eq
log = refl

no_log : parse_log (λ t. t) (λ t. none) (codes "start") ≡ none
unfolding parse_log split contains_text
no_log = refl

auth : gen_auth_cmds (codes "vol") [] (("token", codes "secret") ∷ ("bucket", codes "b") ∷ []) ≡ (
    codes "/usr/bin/juicefs"
    ∷ codes "auth"
    ∷ codes "vol"
    ∷ codes "--token"
    ∷ codes "${TOKEN}"
    ∷ codes "--bucket"
    ∷ codes "b"
    ∷ [])
unfolding gen_auth_cmds text_eq
auth = refl

copied_config :
    gen_shell_commands
      (codes "vol")
      (gen_auth_cmds (codes "vol") (codes "x") [])
      []
      (codes "-o " ++ with_join_option true true (codes "foreground"))
    ≡ (codes "sh"
        ∷ codes "-c"
        ∷ (codes "cp /etc/juicefs/vol.conf /root/.juicefs"
            ++ 10 ∷ codes "exec /sbin/mount.juicefs vol /mnt/jfs -o foreground,commission")
        ∷ [])
unfolding gen_shell_commands join gen_auth_cmds text_eq with_join_option
copied_config = refl

abbrev strokes : ℕ → Text
strokes zero = []
strokes (suc n) = b'I' ∷ strokes n

abbrev no_template : CacheDir
no_template = record {
  type = volume_claim_templates;
  path = [];
  name = [];
  block = false;
  format = false;
  volume_claim_template = none;
}

-- A missing claim template makes the code panic.
panics : gen_cache_dirs strokes (codes "w") (no_template ∷ []) ≡ none
unfolding gen_cache_dirs
panics = refl

abbrev default_dirs : Dirs
default_dirs = record {
  volumes = (codes "jfs-cache-dir-", on_host (codes "/var/jfsCache")) ∷ [];
  volume_mounts = (codes "jfs-cache-dir-", codes "/var/jfsCache") ∷ [];
  volume_devices = [];
  device_mounts = [];
  in_container = codes "/var/jfsCache" ∷ [];
}

default : gen_cache_dirs strokes (codes "w") [] ≡ some default_dirs
unfolding gen_cache_dirs
default = refl
