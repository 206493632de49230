-- ===== src/Examples/WarmUpLogs.antt =====
-- The log of a warm-up with a line of its counters.
use juicefs_operator.Base.Text.{parse_digits, split, contains_text, is_digit, codes}
use juicefs_operator.Base.{◌++◌, refl, ◌≡◌, none, some, [], ◌∷◌}
use juicefs_operator.Pods.{parse_int}
use juicefs_operator.WarmUp.Progress.{parse_warmup_progress_log}
use juicefs_operator.WarmUp.Progress.Printed.{Line, IsLine, printed}
use juicefs_operator.WarmUp.Progress.Log.{meaning, parse_warmup_progress_log-printed}
use juicefs_operator.Base.Int.{pos}

abbrev progress_line : Line
progress_line = record {
  scanned = codes "12";
  scanned_data = codes "1.5 GiB";
  completed = codes "10";
  completed_data = codes "1.2 GiB";
  speed = codes "3 MiB/s";
  failed_blocks = codes "0";
  failed_data = codes "0 B";
}

progress_line-IsLine : IsLine progress_line
unfolding is_digit
progress_line-IsLine = record {
  scanned = refl;
  scanned_data = refl;
  completed = refl;
  completed_data = refl;
  speed = refl;
  failed_blocks = refl;
  failed_data = refl;
}

parse_warmup_progress_log-printed_example :
    parse_warmup_progress_log
      (codes "start\n<DEBUG>: warmup [" ++ printed progress_line ++ codes "\ndone")
    ≡ meaning progress_line
unfolding split contains_text
parse_warmup_progress_log-printed_example =
    parse_warmup_progress_log-printed
      (codes "start\n<DEBUG>: warmup [" ++ printed progress_line ++ codes "\ndone")
      (codes "start" ∷ []) (codes "done" ∷ []) (codes "<DEBUG>: warmup [") progress_line
      progress_line-IsLine refl refl (refl, tt)

read_counters : elim (meaning progress_line) [ none ↦ pos 0 | some p ↦ p.scanned ] ≡ pos 12
unfolding parse_int parse_digits
read_counters = refl
