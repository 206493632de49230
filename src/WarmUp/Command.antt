-- ===== src/WarmUp/Command.antt =====
-- The command of a warm-up: getWarmUpCommand of pkg/builder/job.go. `path.Join` is written for a first
-- part that begins with a slash.
use juicefs_operator.Base.{
  Bool, true, false, not, ◌&&◌, ◌||◌, Option, none, some, List, [], ◌∷◌, ◌++◌, ◌≡◌, refl,
  if◌then◌else◌, map, any, All, is_some, Bool-cases, inl, inr,
}
use juicefs_operator.Base.Text.{Text, codes, text_eq, join, split, trim_space, has_prefix}
use juicefs_operator.WarmUp.MountInfo.{MountInfo, key_of}
use juicefs_operator.WarmUp.Progress.{warmup_support_stats}

-- The segments of a cleaned path: empty ones and dots are dropped, `..` drops the one before it.
drop_last : List Text → List Text
drop_last [] = []
drop_last (x ∷ []) = []
drop_last (x ∷ y ∷ xs) = x ∷ drop_last (y ∷ xs)

unfoldable pub clean : List Text → List Text → List Text
unfolding drop_last
clean path [] = path
clean path (s ∷ ss) =
    clean
      (if text_eq s [] || text_eq s (codes ".")
        then path
        else if text_eq s (codes "..")
        then drop_last path
        else path ++ s ∷ [])
      ss

unfoldable pub path_join : Text → Text → Text
unfolding clean
path_join base t = b'/' ∷ join b'/' (clean [] (split b'/' base ++ split b'/' t))

pub record TargetsFrom : Type 0 where
  pub files : List Text
  pub file_path : Text

-- What the command takes from the spec; a config map of targets is a volume and changes nothing here.
pub record Targets : Type 0 where
  pub targets_from : Option TargetsFrom
  pub targets : List Text
  pub options : List Text

abbrev mount_point : Text
mount_point = codes "/mnt/jfs"

abbrev file_list : Text
file_list = codes "/tmp/filelist.txt"

unfoldable pub echo_targets : List Text → Text
unfolding path_join
echo_targets ts =
    codes "echo '" ++ join b'\n' (map (path_join mount_point) ts) ++ codes "' > " ++ file_list

unfoldable pub from_command : Option TargetsFrom → Text
unfolding echo_targets
from_command none = []
from_command (some f) =
    if not (text_eq f.file_path [])
    then codes "ln -s " ++ path_join mount_point f.file_path ++ b' ' ∷ file_list
    else elim f.files [ [] ↦ [] | t ∷ ts ↦ echo_targets (t ∷ ts) ]

-- The targets that are listed in the spec itself come last and win.
unfoldable pub targets_command : Targets → Text
unfolding from_command
targets_command t = elim t.targets [
  | [] ↦ from_command t.targets_from
  | x ∷ xs ↦ echo_targets (x ∷ xs)
]

unfoldable pub option_words : List Text → List Text
option_words [] = []
option_words (o ∷ os) =
    let rest = option_words os in
    if text_eq (trim_space o) [] then rest else (codes "--" ++ trim_space o) ∷ rest

abbrev is_debug : Text → Bool
is_debug o = not (text_eq (trim_space o) []) && text_eq (key_of (trim_space o)) (codes "debug")

unfoldable pub warm_up_words : (image : Text) → Targets → List Text
unfolding option_words targets_command warmup_support_stats
warm_up_words image t =
    codes "exec"
      ∷ codes "/usr/bin/juicefs"
      ∷ codes "warmup"
      ∷ (if is_some t.targets_from || not (text_eq (targets_command t) [])
          then codes "-f" ∷ file_list ∷ []
          else mount_point ∷ [])
    ++ option_words t.options
    ++ (if warmup_support_stats image && not (any is_debug t.options)
        then codes "--debug" ∷ []
        else [])

unfoldable pub get_warm_up_command : MountInfo → (image : Text) → Targets → List Text
unfolding warm_up_words
get_warm_up_command info image t =
    codes "/bin/sh"
    ∷ codes "-c"
    ∷ join b'\n' (
        info.auth_cmd
        ∷ join b' ' (
            codes "/sbin/mount.juicefs"
            ∷ info.vol_name
            ∷ mount_point
            ∷ codes "-o"
            ∷ join b',' info.mount_opts
            ∷ [])
        ∷ targets_command t
        ∷ (codes "cd " ++ mount_point)
        ∷ join b' ' (warm_up_words image t)
        ∷ [])
    ∷ []

-- A segment that does not leave its directory.
abbrev pub Stays : Text → Type 0
Stays s = text_eq s (codes "..") ≡ false

clean-under :
    (a b : Text) (path segments : List Text)
    → All Stays segments
    → (rest : List Text) × (clean (a ∷ b ∷ path) segments ≡ a ∷ b ∷ rest)
unfolding clean
clean-under a b path [] h = (path, refl)
clean-under a b path (s ∷ ss) (h, hs) = elim (Bool-cases (text_eq s [] || text_eq s (codes "."))) [
  | inl e ↦ rw e (clean-under a b path ss hs)
  | inr e ↦ rw e (rw h (clean-under a b (path ++ s ∷ []) ss hs))
]

under_prefix :
    (segments rest : List Text)
    → segments ≡ codes "mnt" ∷ codes "jfs" ∷ rest
    → has_prefix mount_point (b'/' ∷ join b'/' segments) ≡ true
unfolding has_prefix join
under_prefix segments [] e = rw e refl
under_prefix segments (r ∷ rs) e = rw e refl

-- A target none of whose segments is `..` stays under the mount point.
path_join-under :
    (t : Text) → All Stays (split b'/' t) → has_prefix mount_point (path_join mount_point t) ≡ true
unfolding path_join split text_eq
path_join-under t h =
    let (rest, e) = clean-under (codes "mnt") (codes "jfs") [] (split b'/' t) h in
    under_prefix (clean [] (split b'/' mount_point ++ split b'/' t)) rest e
