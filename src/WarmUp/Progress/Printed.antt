-- ===== src/WarmUp/Progress/Printed.antt =====
-- A line of progress as a warm-up writes it, and its parser (ParseWarmupProgressLog of
-- pkg/utils/warmup.go).
use juicefs_operator.Base.{ℕ, Bool, true, false, some, [], ◌∷◌, ◌++◌, ◌≡◌, refl, arith, any, all}
use juicefs_operator.Base.Text.{Text, codes, strip_prefix, span_digits, is_digit}
use juicefs_operator.WarmUp.Progress.{
  skip_blank, span_until, number_field, text_field, is_comma, is_end, match_progress, Groups, comma,
}

-- A decimal number that is not empty.
abbrev pub IsNumber : Text → Type 0
IsNumber [] = ⊥
IsNumber (c ∷ s) = all is_digit (c ∷ s) ≡ true

abbrev pub IsFree : (ℕ → Bool) → Text → Type 0
IsFree stop s = any stop s ≡ false

strip_prefix-append : (p s : Text) → strip_prefix p (p ++ s) ≡ some s
unfolding strip_prefix
strip_prefix-append [] s = refl
strip_prefix-append (c ∷ p) s = ground (arith, strip_prefix-append p s)

digits-span :
    (s rest : Text) (x : ℕ)
    → all is_digit s ≡ true
    → is_digit x ≡ false
    → span_digits (s ++ x ∷ rest) ≡ (s, x ∷ rest)
unfolding span_digits
digits-span [] rest x h n = ground arith
digits-span (c ∷ s) rest x h n = ground (arith, digits-span s rest x)

span_until-free :
    (stop : ℕ → Bool) (s rest : Text) (x : ℕ)
    → IsFree stop s
    → stop x ≡ true
    → span_until stop (s ++ x ∷ rest) ≡ (s, x ∷ rest)
unfolding span_until
span_until-free stop [] rest x h e = ground arith
span_until-free stop (c ∷ s) rest x h e = ground (arith, span_until-free stop s rest x)

skip_blank-digit : (c : ℕ) (s : Text) → is_digit c ≡ true → skip_blank (b' ' ∷ c ∷ s) ≡ c ∷ s
unfolding skip_blank is_digit
skip_blank-digit c s h = ground arith

number-printed :
    (label n rest : Text) (x : ℕ)
    → IsNumber n
    → is_digit x ≡ false
    → number_field label (label ++ b' ' ∷ (n ++ x ∷ rest)) ≡ some (n, x ∷ rest)
unfolding number_field
number-printed label [] rest x h e = absurd h
number-printed label (c ∷ n) rest x h e =
    rw (strip_prefix-append label (b' ' ∷ (c ∷ n ++ x ∷ rest))) (
      rw (skip_blank-digit c (n ++ x ∷ rest) (ground arith))
        (rw (digits-span (c ∷ n) rest x h e) refl))

text-printed :
    (stop : ℕ → Bool) (label t rest : Text) (x : ℕ)
    → stop b' ' ≡ false
    → IsFree stop t
    → stop x ≡ true
    → text_field stop label (label ++ (b' ' ∷ t ++ x ∷ rest)) ≡ some (b' ' ∷ t, x ∷ rest)
unfolding text_field
text-printed stop label t rest x b h e =
    rw (strip_prefix-append label (b' ' ∷ t ++ x ∷ rest))
      (rw (span_until-free stop (b' ' ∷ t) rest x (ground arith) e) refl)

-- The fields of a line, as texts.
pub record Line : Type 0 where
  pub scanned : Text
  pub scanned_data : Text
  pub completed : Text
  pub completed_data : Text
  pub speed : Text
  pub failed_blocks : Text
  pub failed_data : Text

-- The numbers are decimal, and no other field has a comma, the last no bracket either.
pub record IsLine (l : Line) : Type 0 where
  pub scanned : IsNumber l.scanned
  pub scanned_data : IsFree is_comma l.scanned_data
  pub completed : IsNumber l.completed
  pub completed_data : IsFree is_comma l.completed_data
  pub speed : IsFree is_comma l.speed
  pub failed_blocks : IsNumber l.failed_blocks
  pub failed_data : IsFree is_end l.failed_data

abbrev numbered : Text → Text → Text → Text
numbered label n rest = label ++ b' ' ∷ (n ++ b',' ∷ b' ' ∷ rest)

abbrev worded : Text → Text → Text → Text
worded label t rest = label ++ (b' ' ∷ t ++ b',' ∷ b' ' ∷ rest)

abbrev pub printed : Line → Text
printed l = numbered (codes "scanned:") l.scanned (
    worded (codes "scanned data:") l.scanned_data (
      numbered (codes "completed:") l.completed (
        worded (codes "completed data:") l.completed_data (
          worded (codes "speed:") l.speed (
            numbered (codes "failed blocks:") l.failed_blocks
              (codes "failed data:" ++ (b' ' ∷ l.failed_data ++ b']' ∷ [])))))))

abbrev pub groups : Line → Groups
groups l = record {
  scanned = l.scanned;
  scanned_data = b' ' ∷ l.scanned_data;
  completed = l.completed;
  completed_data = b' ' ∷ l.completed_data;
  speed = b' ' ∷ l.speed;
  failed_blocks = l.failed_blocks;
  failed_data = b' ' ∷ l.failed_data;
}

pub match_progress-printed : (l : Line) → IsLine l → match_progress (printed l) ≡ some (groups l)
unfolding match_progress comma skip_blank strip_prefix is_digit
match_progress-printed l h =
    rw (number-printed (codes "scanned:") l.scanned _ b',' h.scanned refl) (
      rw
        (text-printed is_comma (codes "scanned data:") l.scanned_data _ b',' refl h.scanned_data
          refl)
        (rw (number-printed (codes "completed:") l.completed _ b',' h.completed refl) (
          rw
            (text-printed is_comma (codes "completed data:") l.completed_data _ b',' refl
              h.completed_data refl)
            (rw (text-printed is_comma (codes "speed:") l.speed _ b',' refl h.speed refl) (
              rw
                (number-printed (codes "failed blocks:") l.failed_blocks _ b',' h.failed_blocks
                  refl)
                (rw
                  (text-printed is_end (codes "failed data:") l.failed_data [] b']' refl
                    h.failed_data refl)
                  refl))))))
