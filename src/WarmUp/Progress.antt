-- ===== src/WarmUp/Progress.antt =====
-- The counters of a warm-up from the log of its pod: ParseWarmupProgressLog and GetWarmupJobStats of
-- pkg/utils/warmup.go. The API calls of the latter are arguments.

pub mod Printed
pub mod Log
use juicefs_operator.Base.{
  ℕ, Bool, true, false, not, ◌&&◌, ◌||◌, Option, none, some, List, [], ◌∷◌, ◌++◌, ◌==◌, leb,
  if◌then◌else◌, ◌>>=◌,
}
use mathlib.Core.List.{reverse}
use juicefs_operator.Base.Int.{ℤ}
use juicefs_operator.Base.Text.{
  Text, codes, text_eq, strip_prefix, contains_text, split, span_digits, trim_space,
}
use juicefs_operator.Kube.{PodPhase, succeeded, failed, running}
use juicefs_operator.Pods.{parse_int}
use juicefs_operator.Version.{compare_image_version, at_least}

pub record Progress : Type 0 where
  pub scanned : ℤ
  pub scanned_data : Text
  pub completed : ℤ
  pub completed_data : Text
  pub speed : Text
  pub failed_blocks : ℤ
  pub failed_data : Text

-- `\s*` of the regular expression.
unfoldable pub skip_blank : Text → Text
skip_blank [] = []
skip_blank (c ∷ s) =
    let rest = skip_blank s in
    if c == b' ' || (c == 9 || (c == 10 || (c == 12 || c == 13))) then rest else c ∷ s

unfoldable pub span_until : (ℕ → Bool) → Text → Text × Text
span_until stop [] = ([], [])
span_until stop (c ∷ s) =
    let (w, rest) = span_until stop s in if stop c then ([], c ∷ s) else (c ∷ w, rest)

abbrev non_empty : Text × Text → Option (Text × Text)
non_empty ([], rest) = none
non_empty (c ∷ w, rest) = some (c ∷ w, rest)

-- A label and a number: `label\s*(\d+)`.
unfoldable pub number_field : Text → Text → Option (Text × Text)
unfolding skip_blank span_digits strip_prefix
number_field label s = strip_prefix label s >>= λ t. non_empty (span_digits (skip_blank t))

-- A label and a text, `label\s*([^,]+)`, which is trimmed afterwards: the blanks may stay.
unfoldable pub text_field : (ℕ → Bool) → Text → Text → Option (Text × Text)
unfolding span_until strip_prefix
text_field stop label s = strip_prefix label s >>= λ t. non_empty (span_until stop t)

-- `,\s*`
unfoldable pub comma : Text → Option Text
unfolding skip_blank strip_prefix
comma s = strip_prefix (codes ",") s >>= λ t. some (skip_blank t)

abbrev is_comma : ℕ → Bool
is_comma c = c == b','

abbrev is_end : ℕ → Bool
is_end c = c == b',' || c == b']'

pub record Groups : Type 0 where
  pub scanned : Text
  pub scanned_data : Text
  pub completed : Text
  pub completed_data : Text
  pub speed : Text
  pub failed_blocks : Text
  pub failed_data : Text

unfoldable pub match_progress : Text → Option Groups
match_progress s = number_field (codes "scanned:") s >>= λ a. comma a.1 >>= λ s1.
    text_field is_comma (codes "scanned data:") s1 >>= λ b. comma b.1 >>= λ s2.
    number_field (codes "completed:") s2 >>= λ c. comma c.1 >>= λ s3.
    text_field is_comma (codes "completed data:") s3 >>= λ d. comma d.1 >>= λ s4.
    text_field is_comma (codes "speed:") s4 >>= λ e. comma e.1 >>= λ s5.
    number_field (codes "failed blocks:") s5 >>= λ f. comma f.1 >>= λ s6.
    text_field is_end (codes "failed data:") s6 >>= λ g. some (record {
      scanned = a.0;
      scanned_data = b.0;
      completed = c.0;
      completed_data = d.0;
      speed = e.0;
      failed_blocks = f.0;
      failed_data = g.0;
    })

-- The leftmost match.
unfoldable pub find_progress : Text → Option Groups
unfolding match_progress
find_progress [] = none
find_progress (c ∷ s) = elim (match_progress (c ∷ s)) [ some g ↦ some g | none ↦ find_progress s ]

unfoldable pub to_progress : Groups → Option Progress
unfolding parse_int
to_progress g = parse_int (trim_space g.scanned) >>= λ scanned.
    parse_int (trim_space g.completed) >>= λ completed.
    parse_int (trim_space g.failed_blocks) >>= λ failed_blocks. some (record {
      scanned = scanned;
      scanned_data = trim_space g.scanned_data;
      completed = completed;
      completed_data = trim_space g.completed_data;
      speed = trim_space g.speed;
      failed_blocks = failed_blocks;
      failed_data = trim_space g.failed_data;
    })

-- The lines from the last one: only the first of them with the label is read.
unfoldable pub parse_lines : List Text → Option Progress
unfolding find_progress to_progress contains_text
parse_lines [] = none
parse_lines (l ∷ ls) =
    let rest = parse_lines ls in
    if contains_text l (codes "scanned:") then find_progress l >>= to_progress else rest

unfoldable pub parse_warmup_progress_log : Text → Option Progress
unfolding parse_lines split
parse_warmup_progress_log content = parse_lines (reverse (split 10 content))

unfoldable pub warmup_support_stats : Text → Bool
unfolding compare_image_version
warmup_support_stats image = at_least (compare_image_version image (codes "5.2.11"))

abbrev gives_log : PodPhase → Bool
gives_log succeeded = true
gives_log failed = true
gives_log running = true
gives_log _ = false

-- The counters, `none` with an error, and the log that is returned beside them: `pods` are the phases
-- of the job's pods, `log` that of the first of them; `none` is an error of the call.
unfoldable pub get_warmup_job_stats :
    (image : Text) → (pods : Option (List PodPhase)) → (log : Option Text) → Option Progress × Text
unfolding warmup_support_stats parse_warmup_progress_log
get_warmup_job_stats image none log = (none, [])
get_warmup_job_stats image (some []) log = (none, [])
get_warmup_job_stats image (some (p ∷ ps)) none = (none, [])
get_warmup_job_stats image (some (p ∷ ps)) (some log) =
    if warmup_support_stats image && gives_log p
    then (parse_warmup_progress_log log, log)
    else (none, [])
