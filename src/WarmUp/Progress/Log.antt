-- ===== src/WarmUp/Progress/Log.antt =====
-- The whole log of a warm-up: its last line of progress is the one that is read
-- (ParseWarmupProgressLog of pkg/utils/warmup.go).
use mathlib.Core.List.{reverse, reverse-cons, append_assoc, reverse-append}
use juicefs_operator.Base.{
  ℕ, true, false, none, some, List, [], ◌∷◌, ◌++◌, ◌≡◌, refl, ◌≤◌, ap, sym, ◌∙◌, subst, arith, all,
  All, All-append, length, length-append, Option, ◌>>=◌,
}
use juicefs_operator.Base.Text.{
  Text, codes, strip_prefix, has_prefix, contains_text, is_digit, trim_space, trim_left, trim_right,
  split,
}
use juicefs_operator.Pods.{parse_int}
use juicefs_operator.WarmUp.Progress.{
  Progress, to_progress, parse_warmup_progress_log, Groups, number_field, match_progress,
  find_progress, parse_lines,
}
use juicefs_operator.WarmUp.Progress.Printed.{
  Line, IsLine, printed, groups, match_progress-printed, IsNumber,
}

abbrev pub label : Text
label = codes "scanned:"

-- A prefix that the beginning decides.
strip_prefix-longer :
    (p s t : Text) → has_prefix p s ≡ false → length p ≤ length s → strip_prefix p (s ++ t) ≡ none
unfolding has_prefix strip_prefix
strip_prefix-longer [] s t h le = cc
strip_prefix-longer (x ∷ p) [] t h le = absurd (omega arith)
strip_prefix-longer (x ∷ p) (c ∷ s) t h le = ground (arith, strip_prefix-longer p s t)

no_match : (s : Text) → strip_prefix label s ≡ none → match_progress s ≡ none
unfolding match_progress number_field
no_match s e = rw e refl

contains-head :
    (c : ℕ) (s p : Text) → contains_text (c ∷ s) p ≡ false → has_prefix p (c ∷ s) ≡ false
unfolding contains_text
contains-head c s p h = ground arith

contains-tail : (c : ℕ) (s p : Text) → contains_text (c ∷ s) p ≡ false → contains_text s p ≡ false
unfolding contains_text
contains-tail c s p h = ground arith

contains-middle : (pre rest : Text) → contains_text (pre ++ (label ++ rest)) label ≡ true
unfolding contains_text strip_prefix
contains-middle [] rest = refl
contains-middle (c ∷ pre) rest = ground (arith, contains-middle pre rest)

-- The leftmost match is behind a part in which the label does not begin.
find_progress-behind :
    (pre rest : Text) (g : Groups)
    → contains_text (pre ++ codes "scanned") label ≡ false
    → match_progress (label ++ rest) ≡ some g
    → find_progress (pre ++ (label ++ rest)) ≡ some g
unfolding find_progress
find_progress-behind [] rest g h e = rw (e, find_progress) refl
find_progress-behind (c ∷ pre) rest g h e =
    let none_here : match_progress (c ∷ pre ++ (label ++ rest)) ≡ none =
      no_match (c ∷ pre ++ (label ++ rest)) (
        subst (λ t. strip_prefix label t ≡ none)
          (append_assoc (c ∷ pre) (codes "scanned") (b':' ∷ rest))
          (strip_prefix-longer label (c ∷ pre ++ codes "scanned") (b':' ∷ rest)
            (contains-head c (pre ++ codes "scanned") label h)
            (omega (arith, length-append pre (codes "scanned"))))) in
    rw (none_here, find_progress)
      (find_progress-behind pre rest g (contains-tail c (pre ++ codes "scanned") label h) e)

trim_right-digits : (s : Text) → all is_digit s ≡ true → trim_right s ≡ s
unfolding trim_right is_digit
trim_right-digits [] h = refl
trim_right-digits (c ∷ []) h = ground arith
trim_right-digits (c ∷ d ∷ s) h = rw (trim_right-digits (d ∷ s) (ground arith)) refl

trim_space-number : (s : Text) → IsNumber s → trim_space s ≡ s
unfolding trim_space is_digit
trim_space-number [] h = absurd h
trim_space-number (c ∷ s) h =
    let front : trim_left (c ∷ s) ≡ c ∷ s = ground arith in
    ap trim_right front ∙ trim_right-digits (c ∷ s) h

All-reverse : (P : Text → Type 0) (xs : List Text) → All P xs → All P (reverse xs)
All-reverse P [] h = tt
All-reverse P (x ∷ xs) (h, hs) =
    subst (All P) (sym (reverse-cons x xs))
      (All-append P (reverse xs) (x ∷ []) (All-reverse P xs hs) (h, tt))

parse_lines-skip :
    (xs ys : List Text)
    → All (λ (l : Text). contains_text l label ≡ false) xs
    → parse_lines (xs ++ ys) ≡ parse_lines ys
unfolding parse_lines
parse_lines-skip [] ys h = refl
parse_lines-skip (x ∷ xs) ys (h, hs) = rw h (parse_lines-skip xs ys hs)

-- What the fields of a line stand for; a number out of the range of int64 is an error.
abbrev pub meaning : Line → Option Progress
meaning l = parse_int l.scanned >>= λ scanned. parse_int l.completed >>= λ completed.
    parse_int l.failed_blocks >>= λ failed_blocks. some (record {
      scanned = scanned;
      scanned_data = trim_space l.scanned_data;
      completed = completed;
      completed_data = trim_space l.completed_data;
      speed = trim_space l.speed;
      failed_blocks = failed_blocks;
      failed_data = trim_space l.failed_data;
    })

to_progress-groups : (l : Line) → IsLine l → to_progress (groups l) ≡ meaning l
unfolding to_progress trim_space
to_progress-groups l h = rw (trim_space-number l.scanned h.scanned) (
    rw (trim_space-number l.completed h.completed)
      (rw (trim_space-number l.failed_blocks h.failed_blocks) refl))

parse_lines-behind :
    (pre rest : Text) (earlier : List Text) (g : Groups)
    → contains_text (pre ++ codes "scanned") label ≡ false
    → match_progress (label ++ rest) ≡ some g
    → parse_lines ((pre ++ (label ++ rest)) ∷ earlier) ≡ to_progress g
unfolding parse_lines
parse_lines-behind pre rest earlier g n e =
    rw (contains-middle pre rest) (rw (find_progress-behind pre rest g n e) refl)

last_line-read :
    (l : Line) (pre : Text) (earlier : List Text)
    → IsLine l
    → contains_text (pre ++ codes "scanned") label ≡ false
    → parse_lines ((pre ++ printed l) ∷ earlier) ≡ meaning l
last_line-read l pre earlier h n =
    parse_lines-behind pre _ earlier (groups l) n (match_progress-printed l h)
    ∙ to_progress-groups l h

-- A line of progress, behind a part in which its label does not begin, is read from the log with the
-- meaning of its fields, whatever the lines before it are, if no line after it has the label.
pub parse_warmup_progress_log-printed :
    (content : Text) (earlier later : List Text) (pre : Text) (l : Line)
    → IsLine l
    → contains_text (pre ++ codes "scanned") label ≡ false
    → split b'\n' content ≡ earlier ++ (pre ++ printed l) ∷ later
    → All (λ (t : Text). contains_text t label ≡ false) later
    → parse_warmup_progress_log content ≡ meaning l
unfolding parse_warmup_progress_log
parse_warmup_progress_log-printed content earlier later pre l h n e quiet =
    ap (λ ls. parse_lines (reverse ls)) e
    ∙ ap parse_lines (reverse-append earlier ((pre ++ printed l) ∷ later))
    ∙ ap (λ ls. parse_lines (ls ++ reverse earlier)) (reverse-cons (pre ++ printed l) later)
    ∙ ap parse_lines (append_assoc (reverse later) ((pre ++ printed l) ∷ []) (reverse earlier))
    ∙ parse_lines-skip (reverse later) ((pre ++ printed l) ∷ reverse earlier)
        (All-reverse (λ (t : Text). contains_text t label ≡ false) later quiet)
    ∙ last_line-read l pre (reverse earlier) h n
