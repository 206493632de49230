-- ===== src/Builder/Commands.antt =====
-- The command of a worker: genAuthCmds, withJoinOption, genCommands, genCommandsV2 and genShellCommands
-- of pkg/builder/cache_group_pod.go.
use juicefs_operator.Base.{
  String, Bool, true, false, Option, none, some, List, [], ◌∷◌, ◌++◌, if◌then◌else◌, lookup,
}
use juicefs_operator.Base.Text.{Text, codes, text_eq, join, split}
use juicefs_operator.Builder.{parse_options}

abbrev secret_keys : List String
secret_keys =
    "token" ∷ "access-key" ∷ "access-key2" ∷ "bucket" ∷ "bucket2" ∷ "subdir" ∷ "secret-key"
    ∷ "secret-key2" ∷ []

abbrev secret_stripped_env_map : List (String × Text)
secret_stripped_env_map =
    ("token", codes "TOKEN")
    ∷ ("secret-key", codes "SECRET_KEY")
    ∷ ("secret-key2", codes "SECRET_KEY_2")
    ∷ []

abbrev flag : Text → Text
flag key = codes "--" ++ key

-- The words for the keys that the secret has: an environment variable for what is stripped.
unfoldable pub key_words : List (String × Text) → List String → List Text
key_words secret [] = []
key_words secret (k ∷ ks) = elim (lookup k secret) [
  | none ↦ key_words secret ks
  | some value ↦
      flag (codes k)
      ∷ (elim (lookup k secret_stripped_env_map) [
        | none ↦ value
        | some env ↦ codes "${" ++ env ++ codes "}"
      ])
      ∷ key_words secret ks
]

abbrev option_words : List (Text × Text) → List Text
option_words [] = []
option_words ((k, v) ∷ os) =
    let rest = option_words os in if text_eq v [] then flag k ∷ rest else flag k ∷ v ∷ rest

abbrev format_words : Option Text → List Text
format_words none = []
format_words (some value) = option_words (parse_options (split b',' value))

unfoldable pub gen_auth_cmds :
    (vol_name init_config : Text) → (secret : List (String × Text)) → List Text
unfolding key_words
gen_auth_cmds vol_name init_config secret =
    if text_eq init_config []
    then codes "/usr/bin/juicefs" ∷ codes "auth" ∷ vol_name ∷ key_words secret secret_keys
      ++ format_words (lookup "format-options" secret)
    else codes "cp"
      ∷ (codes "/etc/juicefs/" ++ vol_name ++ codes ".conf")
      ∷ codes "/root/.juicefs"
      ∷ []

-- `supported` is the comparison of the image with the first version that knows `commission`.
unfoldable pub with_join_option : (add_join supported : Bool) → Text → Text
with_join_option false supported opts = opts
with_join_option true true opts = opts ++ codes ",commission"
with_join_option true false opts = opts ++ codes ",group-backup"

unfoldable pub gen_shell_commands :
    (vol_name : Text) → (auth device_mounts : List Text) → (mount_opts_arg : Text) → List Text
gen_shell_commands vol_name auth device_mounts mount_opts_arg =
    codes "sh"
    ∷ codes "-c"
    ∷ join 10 (
        join b' ' auth ∷ device_mounts
        ++ join b' ' (
            codes "exec"
            ∷ codes "/sbin/mount.juicefs"
            ∷ vol_name
            ∷ codes "/mnt/jfs"
            ∷ mount_opts_arg
            ∷ [])
          ∷ [])
    ∷ []
