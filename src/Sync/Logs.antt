-- ===== src/Sync/Logs.antt =====
-- What a sync's manager tells: GetMetricsPortWithOptions, ParseSyncMetrics, FetchMetrics and ParseLog of
-- pkg/utils/sync.go. Numbers in floating point are a parameter.
use juicefs_operator.Base.{
  ◌>>=◌, ℕ, Bool, true, false, ◌||◌, Option, none, some, List, [], ◌∷◌, ◌++◌, ◌==◌, ltb, ◌-◌,
  if◌then◌else◌,
}
use Prim.Native.Nat.{◌%◌}
use juicefs_operator.Base.Int.{ℤ, pos, negsuc}
use juicefs_operator.Base.Text.{
  Text, codes, text_eq, cut, split, strip_prefix, has_prefix, contains_text, trim_space, atoi,
  span_digits, parse_digits, max_int,
}

abbrev is_zero : ℤ → Bool
is_zero (pos n) = n == 0
is_zero (negsuc n) = false

-- The port of one option, where it has one.
unfoldable pub port_of : Text → Option ℤ
port_of opt =
    if contains_text opt (codes "metrics")
    then elim (cut b'=' opt) [
      | none ↦ none
      | some (_, value) ↦ elim (split b':' value) [
        | host ∷ port ∷ [] ↦ some (if is_zero (atoi port) then pos 9567 else atoi port)
        | _ ↦ none
      ]
    ]
    else none

-- `int32(n)`, with its wrap-around.
abbrev two_32 : ℕ
two_32 = 4294967296

abbrev signed_32 : ℕ → ℤ
signed_32 m = if ltb m 2147483648 then pos m else negsuc (two_32 - m - 1)

abbrev int32 : ℤ → ℤ
int32 (pos n) = signed_32 (n % two_32)
int32 (negsuc n) = signed_32 (two_32 - 1 - n % two_32)

unfoldable pub get_metrics_port_with_options : List Text → ℤ
unfolding port_of
get_metrics_port_with_options [] = pos 9567
get_metrics_port_with_options (o ∷ os) = elim (port_of o) [
  | none ↦ get_metrics_port_with_options os
  | some port ↦ int32 port
]

-- `m[key] = value`
abbrev pub store : {A : Type 0} → Text → A → List (Text × A) → List (Text × A)
store key value [] = (key, value) ∷ []
store key value ((k, v) ∷ m) =
    let rest = store key value m in if text_eq k key then (key, value) ∷ m else (k, v) ∷ rest

abbrev before_brace : Text → Text
before_brace s = elim (cut b'{' s) [ none ↦ s | some (a, _) ↦ a ]

-- `parse_float` is strconv.ParseFloat.
unfoldable pub parse_lines :
    {F : Type 0}
    → (parse_float : Text → Option F) → List Text
    → List (Text × F)
    → Option (List (Text × F))
parse_lines parse_float [] m = some m
parse_lines parse_float (line ∷ lines) m = elim (has_prefix (codes "#") line || text_eq line []) [
  | true ↦ parse_lines parse_float lines m
  | false ↦ elim (cut b' ' (trim_space line)) [
    | none ↦ parse_lines parse_float lines m
    | some (name, value) ↦ elim (parse_float value) [
      | none ↦ none
      | some x ↦ parse_lines parse_float lines (store (before_brace name) x m)
    ]
  ]
]

unfoldable pub parse_sync_metrics :
    {F : Type 0} → (parse_float : Text → Option F) → Text → Option (List (Text × F))
unfolding parse_lines
parse_sync_metrics parse_float text = parse_lines parse_float (split 10 text) []

-- `curl` in the container of the manager: what it writes and its errors, or the failure of the call.
unfoldable pub fetch_metrics :
    {F : Type 0}
    → (parse_float : Text → Option F) → (exec : (port : ℤ) → Option (Text × Text))
    → (options : List Text) → Option (List (Text × F))
unfolding parse_sync_metrics get_metrics_port_with_options
fetch_metrics parse_float exec options =
    exec (get_metrics_port_with_options options) >>= λ (out, err). elim err [
      | [] ↦ parse_sync_metrics parse_float out
      | _ ∷ _ ↦ none
    ]

-- The last line with the statistics.
unfoldable pub last_stats : List Text → Option Text
last_stats [] = none
last_stats (l ∷ ls) = elim (last_stats ls) [
  | some found ↦ some found
  | none ↦ if contains_text l (codes "<INFO>: Found") then some l else none
]

-- `strings.Cut(s, sep)` for a separator of several characters.
unfoldable pub cut_text : Text → Text → Option (Text × Text)
cut_text sep [] = none
cut_text sep (c ∷ s) = elim (strip_prefix sep (c ∷ s)) [
  | some rest ↦ some ([], rest)
  | none ↦ elim (cut_text sep s) [ none ↦ none | some (a, b) ↦ some (c ∷ a, b) ]
]

abbrev before_text : Text → Text → Text
before_text sep s = elim (cut_text sep s) [ none ↦ s | some (a, _) ↦ a ]

abbrev after_text : Text → Text → Text
after_text sep s = elim (cut_text sep s) [ none ↦ [] | some (_, b) ↦ b ]

-- The statistics of the line: `Split(l, "<INFO>:")[1]`, then `Split(_, "[sync")[0]`.
unfoldable pub stats_part : Text → Text
unfolding cut_text
stats_part l =
    trim_space
      (before_text (codes "[sync") (before_text (codes "<INFO>:") (after_text (codes "<INFO>:") l)))

abbrev is_blank : ℕ → Bool
is_blank c = c == 9 || c == 10 || c == 12 || c == 13 || c == b' '

abbrev drop_blanks : Text → Text
drop_blanks [] = []
drop_blanks (c ∷ s) = let rest = drop_blanks s in if is_blank c then rest else c ∷ s

-- A text without its last character, a closing parenthesis.
unfoldable pub before_paren : Text → Option Text
before_paren [] = none
before_paren (c ∷ []) = if c == b')' then some [] else none
before_paren (c ∷ d ∷ s) = elim (before_paren (d ∷ s)) [ none ↦ none | some t ↦ some (c ∷ t) ]

-- What follows the digits of a value: nothing, or blanks and a text in parentheses.
unfoldable pub amount_of : Text → Option Text
unfolding before_paren
amount_of [] = some []
amount_of (c ∷ s) = elim (is_blank c) [
  | false ↦ none
  | true ↦ elim (drop_blanks s) [
    | [] ↦ none
    | d ∷ t ↦ elim (d == b'(') [ true ↦ before_paren t | false ↦ none ]
  ]
]

abbrev checked : Option ℕ → Option ℕ
checked none = none
checked (some n) = if ltb max_int n then none else some n

-- The number and the amount of a value, `none` for what the expression or Atoi refuses.
unfoldable pub match_value : Text → Option (ℕ × Text)
unfolding amount_of
match_value s =
    let (digits, rest) = span_digits s in
    elim digits [
      | [] ↦ none
      | d ∷ ds ↦ elim (amount_of rest) [
        | none ↦ none
        | some amount ↦ elim (checked (parse_digits (d ∷ ds) 0)) [
          | none ↦ none
          | some n ↦ some (n, amount)
        ]
      ]
    ]

abbrev with_bytes : Text → Option ℕ → List (Text × ℕ) → List (Text × ℕ)
with_bytes key none m = m
with_bytes key (some n) m = store (key ++ codes "_bytes") n m

-- `lower` is strings.ToLower, `parse_bytes` the number of bytes of an amount.
module _ (lower : Text → Text) (parse_bytes : Text → Option ℕ) where
  unfoldable pub add_part : Text → List (Text × ℕ) → List (Text × ℕ)
  unfolding match_value
  add_part part m = elim (cut b':' (trim_space part)) [
    | none ↦ m
    | some (k, v) ↦ elim (match_value (trim_space v)) [
      | none ↦ m
      | some (n, amount) ↦
          let key = lower (trim_space k) in
          with_bytes key (if text_eq amount [] then none else parse_bytes amount) (store key n m)
    ]
  ]

  abbrev add_parts : List Text → List (Text × ℕ) → List (Text × ℕ)
  add_parts [] m = m
  add_parts (p ∷ ps) m = add_parts ps (add_part p m)

  unfoldable pub parse_log : Text → Option (List (Text × ℕ))
  unfolding last_stats stats_part add_part
  parse_log text = elim (last_stats (split 10 text)) [
    | none ↦ none
    | some line ↦ some (add_parts (split b',' (stats_part line)) [])
  ]
