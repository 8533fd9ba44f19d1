-- ===== src/Config/Tests.antt =====
-- A text of four lines, read into no entries.
use low_latency_pipeline.Prelude.{
  ℕ, ◌+◌, ◌≤◌, ◌≡◌, refl, true, some, none, List, [], ◌∷◌, length, arith,
}
use low_latency_pipeline.Config.{
  Config, find, parse, lines, read_line, same_text, trim, trim_left, trim_right, split_equals,
  max_entries,
}
use low_latency_pipeline.Config.Lookup.{IsReadable, last_value, parse-find}

-- "a = 1", "#b=2", "", "a=3".
abbrev text : List ℕ
text = 97 ∷ 32 ∷ 61 ∷ 32 ∷ 49 ∷ 10 ∷ 35 ∷ 98 ∷ 61 ∷ 50 ∷ 10 ∷ 10 ∷ 97 ∷ 61 ∷ 51 ∷ []

lines-text :
    lines text
    ≡ (97 ∷ 32 ∷ 61 ∷ 32 ∷ 49 ∷ []) ∷ (35 ∷ 98 ∷ 61 ∷ 50 ∷ []) ∷ [] ∷ (97 ∷ 61 ∷ 51 ∷ []) ∷ []
unfolding lines
lines-text = refl

text-IsReadable : IsReadable (lines text)
unfolding lines read_line trim trim_left trim_right split_equals
text-IsReadable =
    ((
      (omega arith, λ e. ground (arith, e)),
      (
        (omega arith, λ e. ground (arith, e)),
        ((omega arith, λ e. ground (arith, e)), ((omega arith, λ e. ground (arith, e)), tt)),
      ),
    ))

last_a : last_value (lines text) (97 ∷ []) none ≡ some (51 ∷ [])
unfolding lines read_line trim trim_left trim_right split_equals same_text
last_a = refl

abbrev no_entries : Config
no_entries = []

few : length no_entries + length (lines text) ≤ max_entries
unfolding lines
few = omega arith

parse-find_example :
    ((parse no_entries text).1 ≡ true)
    × ((key : List ℕ)
        → find (parse no_entries text).0 key ≡ last_value (lines text) key (find no_entries key))
parse-find_example = parse-find no_entries text text-IsReadable few
