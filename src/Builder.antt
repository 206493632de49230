-- ===== src/Builder.antt =====
-- What a worker pod is built from: the secret (pkg/utils/secret.go), the options
-- (pkg/utils/options.go) and the mount and auth commands of pkg/builder/cache_group_pod.go.
pub mod CacheDirs
pub mod Commands
pub mod Configs
pub mod Names
pub mod Mounted
pub mod Options
pub mod RoundTrip
pub mod Worker
use juicefs_operator.Base.{
  ℕ, ◌-◌, String, Bool, true, false, not, ◌&&◌, ◌||◌, Option, none, some, List, [], ◌∷◌, ◌++◌,
  str_eq, if◌then◌else◌, lookup, insert, is_some, ◌==◌,
}
use juicefs_operator.Base.Text.{Text, codes, text_eq, cut, join, split, trim_space, has_prefix}

abbrev keys_compatible : List (String × String)
keys_compatible =
    ("accesskey", "access-key")
    ∷ ("accesskey2", "access-key2")
    ∷ ("secretkey", "secret-key")
    ∷ ("secretkey2", "secret-key2")
    ∷ []

-- A key of an older name keeps its new name as the value.
unfoldable pub parse_secret : List (String × Text) → List (String × Text) → List (String × Text)
parse_secret [] m = m
parse_secret ((k, v) ∷ kvs) m = elim (lookup k keys_compatible) [
  | none ↦ parse_secret kvs (insert k v m)
  | some real_key ↦ parse_secret kvs (insert real_key (codes real_key) m)
]

unfoldable pub validate_secret : Option (List (String × Text)) → Bool
unfolding parse_secret
validate_secret none = false
validate_secret (some kvs) =
    is_some (lookup "name" (parse_secret kvs [])) && is_some (lookup "token" (parse_secret kvs []))

unfoldable pub parse_pair : Text → Option (Text × Text) → Option (Text × Text)
parse_pair option none =
    let key = trim_space option in if text_eq key [] then none else some (key, [])
parse_pair option (some (k, v)) =
    if text_eq v []
    then none
    else if text_eq (trim_space k) []
    then none
    else some (trim_space k, trim_space v)

unfoldable pub parse_options : List Text → List (Text × Text)
unfolding parse_pair
parse_options [] = []
parse_options (o ∷ os) =
    let t = trim_space o in
    elim (parse_pair t (cut b'=' t)) [ none ↦ parse_options os | some p ↦ p ∷ parse_options os ]

unfoldable pub text_contains : List Text → Text → Bool
text_contains [] t = false
text_contains (x ∷ xs) t = text_eq x t || text_contains xs t

abbrev pub written : Text × Text → Text
written (k, v) = if text_eq v [] then trim_space k else trim_space k ++ b'=' ∷ trim_space v

-- An option is skipped as a duplicate when its value is among the options written so far.
unfoldable pub add_options : List Text → List (Text × Text) → List Text
unfolding text_contains
add_options opts [] = opts
add_options opts (o ∷ os) =
    if text_eq o.0 (codes "cache-dir")
    then add_options opts os
    else if text_contains opts o.1
    then add_options opts os
    else add_options (opts ++ written o ∷ []) os

abbrev pub base_options : Text → List Text
base_options cache_group =
    codes "foreground" ∷ codes "no-update" ∷ (codes "cache-group=" ++ cache_group) ∷ []

unfoldable pub gen_mount_opts :
    (cache_group : Text) → (opts : List Text) → (cache_dirs : List Text) → Text
unfolding add_options parse_options
gen_mount_opts cache_group opts cache_dirs = join b',' (
    add_options (base_options cache_group) (parse_options opts)
    ++ (codes "cache-dir=" ++ join b':' cache_dirs) ∷ [])
