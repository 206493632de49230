-- ===== src/Examples/Builders.antt =====
-- The theorems about the pods of workers on concrete options and secrets.
use juicefs_operator.Base.Text.{trim_space, cut, Text, codes, text_eq, has_prefix, join}
use juicefs_operator.Base.{
  ℕ, zero, suc, ◌≡◌, refl, false, Option, none, some, List, [], ◌∷◌, All, lookup, map, ◌++◌,
}
use juicefs_operator.Builder.{parse_options, add_options, base_options, parse_secret, written}
use juicefs_operator.Builder.RoundTrip.{parse_options-written}
use juicefs_operator.Builder.Mounted.{gen_mount_opts-cache_dir}
use juicefs_operator.Builder.{gen_mount_opts}
use juicefs_operator.Base.Text.{split}

-- A number as so many strokes.
abbrev strokes : ℕ → Text
strokes zero = []
strokes (suc n) = b'I' ∷ strokes n

abbrev two_configs : List (Text × Text)
two_configs = (codes "krb", codes "/etc/krb") ∷ (codes "aws", codes "/root/.aws") ∷ []

-- The first name is taken.
abbrev own_volumes : List (Text × Option Text)
own_volumes = (codes "jfs-config-I", none) ∷ (codes "cache", none) ∷ []

abbrev own_mounts : List (Text × Text)
own_mounts = (codes "cache", codes "/var/jfsCache") ∷ []

abbrev user_options : List Text
user_options =
    codes "cache-dir = /tmp"
    ∷ codes "buffer-size=300"
    ∷ codes " verbose "
    ∷ codes "log="
    ∷ codes "log=foreground"
    ∷ []

written_options : add_options (base_options (codes "g")) (parse_options user_options) ≡ (
    codes "foreground"
    ∷ codes "no-update"
    ∷ codes "cache-group=g"
    ∷ codes "buffer-size=300"
    ∷ codes "verbose"
    ∷ [])
unfolding add_options parse_options cut trim_space text_eq
written_options = refl

gen_mount_opts-cache_dir_example :
    (before : List Text) × (split b','
        (gen_mount_opts (codes "g") user_options (codes "/a" ∷ codes "/b" ∷ []))
      ≡ before ++ codes "cache-dir=/a:/b" ∷ [])
    × All (λ o. has_prefix (codes "cache-dir=") o ≡ false) before
unfolding join
gen_mount_opts-cache_dir_example =
    gen_mount_opts-cache_dir (codes "g") user_options (codes "/a" ∷ codes "/b" ∷ []) refl
      (refl, (refl, (refl, (refl, (refl, tt))))) refl

-- A setting behind a comma is not noticed, and comes before the operator's own.
hidden_setting :
    gen_mount_opts (codes "g") (codes "verbose,cache-dir=/tmp" ∷ []) (codes "/a" ∷ [])
    ≡ codes "foreground,no-update,cache-group=g,verbose,cache-dir=/tmp,cache-dir=/a"
unfolding gen_mount_opts add_options parse_options cut trim_space text_eq join
hidden_setting = refl

-- An option of which the name, not the value, was given before is written twice.
twice :
    add_options [] ((codes "verbose", []) ∷ (codes "verbose", []) ∷ [])
    ≡ (codes "verbose" ∷ codes "verbose" ∷ [])
unfolding add_options text_eq trim_space
twice = refl

-- A secret with an old key name: its value is lost.
old_key :
    lookup "access-key" (parse_secret (("accesskey", codes "AK") ∷ []) [])
    ≡ some (codes "access-key")
unfolding parse_secret
old_key = refl

parse_options-written_example :
    parse_options (map written (parse_options user_options)) ≡ parse_options user_options
parse_options-written_example = parse_options-written user_options
