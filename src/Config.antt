-- ===== src/Config.antt =====
-- src/common/config_file.hpp: `Config`, key=value settings. A text is its bytes without the terminating
-- zero; what is printed about a problem is left out. `strtoll` and `strtod` are arguments: they give
-- the value of a string that they read whole.
pub mod Lookup
mod Tests
use low_latency_pipeline.Prelude.{
  ℕ, zero, suc, ◌+◌, Bool, true, false, ◌&&◌, ◌||◌, not, Option, none, some, List, [], ◌∷◌, ◌++◌,
  length, leb, ◌==◌, if◌then◌else◌,
}
use low_latency_pipeline.Prelude.Int.{ℤ}

pub record Entry : Type 0 where
  pub key : List ℕ
  pub val : List ℕ

-- The entries in use, in their order.
abbrev pub Config : Type 0
Config = List Entry

-- MAX_ENTRIES, KEY_LEN, VAL_LEN, and the size of the line buffer.
abbrev pub max_entries : ℕ
max_entries = 256

abbrev pub key_len : ℕ
key_len = 64

abbrev pub val_len : ℕ
val_len = 256

abbrev pub line_len : ℕ
line_len = 384

-- `strcmp(a, b) == 0`
unfoldable pub same_text : List ℕ → List ℕ → Bool
same_text [] [] = true
same_text [] (y ∷ ys) = false
same_text (x ∷ xs) [] = false
same_text (x ∷ xs) (y ∷ ys) = (x == y) && same_text xs ys

unfoldable pub find : Config → (key : List ℕ) → Option (List ℕ)
find [] key = none
find (e ∷ es) key = let rest = find es key in if same_text e.key key then some e.val else rest

abbrev pub has : Config → (key : List ℕ) → Bool
has c key = elim (find c key) [ none ↦ false | some v ↦ true ]

-- A blank at the start of a line or a name.
abbrev pub is_blank : ℕ → Bool
is_blank c = (c == 32) || (c == 9)

abbrev pub is_trailing : ℕ → Bool
is_trailing c = is_blank c || ((c == 10) || (c == 13))

unfoldable pub trim_left : List ℕ → List ℕ
trim_left [] = []
trim_left (c ∷ cs) = let rest = trim_left cs in if is_blank c then rest else c ∷ cs

-- `rest` is what stays of the bytes behind `c`.
abbrev pub keep : (c : ℕ) (rest : List ℕ) → List ℕ
keep c [] = if is_trailing c then [] else c ∷ []
keep c (d ∷ ds) = c ∷ d ∷ ds

unfoldable pub trim_right : List ℕ → List ℕ
trim_right [] = []
trim_right (c ∷ cs) = keep c (trim_right cs)

unfoldable pub trim : List ℕ → List ℕ
trim s = trim_right (trim_left s)

-- `strchr(s, '=')` with what stands before and after it.
unfoldable pub split_equals : List ℕ → Option (List ℕ × List ℕ)
split_equals [] = none
split_equals (c ∷ cs) =
    if c == 61
    then some ([], cs)
    else elim (split_equals cs) [ none ↦ none | some s ↦ some (c ∷ s.0, s.1) ]

-- The write of a value under a key: over the entry that has the key, or behind the last one.
unfoldable pub assign : Config → (key val : List ℕ) → Config
assign [] key val = record { key = key; val = val } ∷ []
assign (e ∷ es) key val =
    let rest = assign es key val in
    if same_text e.key key then record e { val = val } ∷ es else e ∷ rest

-- What a line says, before the entries are looked at.
pub data Line : Type 0 where
  ignored rejected : Line
  assignment : (key val : List ℕ) → Line

-- The first byte is '#'.
abbrev pub is_comment : List ℕ → Bool
is_comment [] = false
is_comment (c ∷ cs) = c == 35

abbrev pub is_empty : List ℕ → Bool
is_empty [] = true
is_empty (c ∷ cs) = false

unfoldable pub read_line : List ℕ → Line
read_line line =
    let s = trim line in
    if is_empty s || is_comment s then Line.ignored else elim (split_equals s) [
      | none ↦ Line.rejected
      | some p ↦
          let key = trim p.0 in
          let val = trim p.1 in
          if is_empty key
          then Line.rejected
          else if leb key_len (length key) || leb val_len (length val)
          then Line.rejected
          else Line.assignment key val
    ]

unfoldable pub parse_line : Config → (line : List ℕ) → Config × Bool
parse_line c line = elim (read_line line) [
  | Line.ignored ↦ (c, true)
  | Line.rejected ↦ (c, false)
  | Line.assignment key val ↦
      if not (has c key) && (length c == max_entries) then (c, false) else (assign c key val, true)
]

-- The lines of a text, each up to the newline or the end.
unfoldable pub lines : List ℕ → List (List ℕ)
lines [] = []
lines (c ∷ cs) =
    let rest = lines cs in
    if c == 10 then [] ∷ rest else elim rest [ [] ↦ (c ∷ []) ∷ [] | l ∷ ls ↦ (c ∷ l) ∷ ls ]

-- The loop of `parse`, with `ok` as it stands.
unfoldable pub parse_lines : Config → (ok : Bool) → List (List ℕ) → Config × Bool
parse_lines c ok [] = (c, ok)
parse_lines c ok (l ∷ ls) =
    let next = parse_line c l in
    let skipped = parse_lines c false ls in
    let read = parse_lines next.0 (ok && next.1) ls in
    if leb line_len (length l) then skipped else read

unfoldable pub parse : Config → (text : List ℕ) → Config × Bool
parse c text = parse_lines c true (lines text)

unfoldable pub get_str : Config → (key default : List ℕ) → List ℕ
get_str c key default = elim (find c key) [ none ↦ default | some v ↦ v ]

-- A value without the underscores between its digits.
unfoldable pub without_underscores : List ℕ → List ℕ
without_underscores [] = []
without_underscores (c ∷ cs) =
    let rest = without_underscores cs in if c == 95 then rest else c ∷ rest

unfoldable pub get_i64 : (strtoll : List ℕ → Option ℤ) → Config → (key : List ℕ) → ℤ → ℤ
get_i64 strtoll c key default = elim (find c key) [
  | none ↦ default
  | some v ↦ elim (strtoll (without_underscores v)) [ none ↦ default | some n ↦ n ]
]

unfoldable pub get_f64 :
    {W : Type 0} → (strtod : List ℕ → Option W) → Config → (key : List ℕ) → W → W
get_f64 strtod c key default = elim (find c key) [
  | none ↦ default
  | some v ↦ elim (strtod v) [ none ↦ default | some n ↦ n ]
]

-- "1", "true", "yes"; "0", "false", "no".
unfoldable pub get_bool : Config → (key : List ℕ) → Bool → Bool
get_bool c key default = elim (find c key) [
  | none ↦ default
  | some v ↦
      if same_text v (49 ∷ [])
        || (same_text v (116 ∷ 114 ∷ 117 ∷ 101 ∷ []) || same_text v (121 ∷ 101 ∷ 115 ∷ []))
      then true
      else if same_text v (48 ∷ [])
          || (same_text v (102 ∷ 97 ∷ 108 ∷ 115 ∷ 101 ∷ []) || same_text v (110 ∷ 111 ∷ []))
      then false
      else default
]

-- `strncmp(text, prefix, strlen(prefix)) == 0`, with what follows the prefix.
unfoldable pub after_prefix : (prefix text : List ℕ) → Option (List ℕ)
after_prefix [] text = some text
after_prefix (p ∷ ps) [] = none
after_prefix (p ∷ ps) (c ∷ cs) = let rest = after_prefix ps cs in if p == c then rest else none

-- The calls that `for_prefix` makes.
unfoldable pub for_prefix : Config → (prefix : List ℕ) → List (List ℕ × List ℕ)
for_prefix [] prefix = []
for_prefix (e ∷ es) prefix =
    let rest = for_prefix es prefix in
    elim (after_prefix prefix e.key) [ none ↦ rest | some suffix ↦ (suffix, e.val) ∷ rest ]

-- The last byte is '.'.
unfoldable pub ends_in_dot : List ℕ → Bool
ends_in_dot [] = false
ends_in_dot (c ∷ []) = c == 46
ends_in_dot (c ∷ d ∷ ds) = ends_in_dot (d ∷ ds)

unfoldable pub is_known : (known : List (List ℕ)) → (key : List ℕ) → Bool
is_known [] key = false
is_known (k ∷ ks) key =
    (if ends_in_dot k
      then elim (after_prefix k key) [ none ↦ false | some s ↦ true ]
      else same_text key k)
    || is_known ks key

unfoldable pub warn_unknown : Config → (known : List (List ℕ)) → ℕ
warn_unknown [] known = 0
warn_unknown (e ∷ es) known =
    let rest = warn_unknown es known in if is_known known e.key then rest else rest + 1

-- The path of the first "--config=" among the arguments behind the first.
unfoldable pub config_path : (arguments : List (List ℕ)) → Option (List ℕ)
config_path [] = none
config_path (a ∷ rest) =
    elim (after_prefix (45 ∷ 45 ∷ 99 ∷ 111 ∷ 110 ∷ 102 ∷ 105 ∷ 103 ∷ 61 ∷ []) a) [
      | some path ↦ some path
      | none ↦ config_path rest
    ]
