-- ===== src/Config/Lookup.antt =====
-- src/common/config_file.hpp: the entries as a map from keys to values, and what a line does to it.
use low_latency_pipeline.Prelude.{
  ℕ, ◌≡◌, ◌≢◌, ◌≤◌, ◌<◌, inl, inr, refl, ap, sym, ◌∙◌, subst, Bool, true, false, ◌&&◌, not, Option,
  none, some, List, [], ◌∷◌, length, ◌==◌, ◌+◌, leb, if◌then◌else◌, arith, Bool-cases,
}
use low_latency_pipeline.Config.{
  Config, Entry, Line, same_text, find, has, assign, read_line, parse_line, parse_lines, parse,
  lines, max_entries, line_len,
}

same_text_refl : (a : List ℕ) → same_text a a ≡ true
unfolding same_text
same_text_refl [] = refl
same_text_refl (x ∷ xs) = ground (arith, same_text_refl xs)

same_text-eq : (a b : List ℕ) → same_text a b ≡ true → a ≡ b
unfolding same_text
same_text-eq [] [] h = refl
same_text-eq [] (y ∷ ys) h = absurd (ground arith)
same_text-eq (x ∷ xs) [] h = absurd (ground arith)
same_text-eq (x ∷ xs) (y ∷ ys) h =
    let (e, rest) = both (x == y) (same_text xs ys) h in
    let head_eq : x ≡ y = ground arith in
    ap (λ t. t ∷ xs) head_eq ∙ ap (λ t. y ∷ t) (same_text-eq xs ys rest)
  where
    both : (a b : Bool) → a && b ≡ true → (a ≡ true) × (b ≡ true)
    both a b h = ground arith

same_text_ne : (a b : List ℕ) → a ≢ b → same_text a b ≡ false
same_text_ne a b ne = elim (Bool-cases (same_text a b)) [
  | inl e ↦ absurd (ne (same_text-eq a b e))
  | inr e ↦ e
]

find-hit :
    (e : Entry) (es : Config) (k : List ℕ) → same_text e.key k ≡ true → find (e ∷ es) k ≡ some e.val
unfolding find
find-hit e es k h = rw h refl

find-miss :
    (e : Entry) (es : Config) (k : List ℕ) → same_text e.key k ≡ false → find (e ∷ es) k ≡ find es k
unfolding find
find-miss e es k h = rw h refl

assign-hit :
    (e : Entry) (es : Config) (k v : List ℕ)
    → same_text e.key k ≡ true
    → assign (e ∷ es) k v ≡ record e { val = v } ∷ es
unfolding assign
assign-hit e es k v h = rw h refl

assign-miss :
    (e : Entry) (es : Config) (k v : List ℕ)
    → same_text e.key k ≡ false
    → assign (e ∷ es) k v ≡ e ∷ assign es k v
unfolding assign
assign-miss e es k v h = rw h refl

find-assign_self : (c : Config) (k v : List ℕ) → find (assign c k v) k ≡ some v
unfolding assign
find-assign_self [] k v = find-hit (record { key = k; val = v }) [] k (same_text_refl k)
find-assign_self (e ∷ es) k v = elim (Bool-cases (same_text e.key k)) [
  | inl h ↦ ap (λ c. find c k) (assign-hit e es k v h) ∙ find-hit (record e { val = v }) es k h
  | inr h ↦
      ap (λ c. find c k) (assign-miss e es k v h)
      ∙ find-miss e (assign es k v) k h
      ∙ find-assign_self es k v
]

find-assign_ne : (c : Config) (k v j : List ℕ) → k ≢ j → find (assign c k v) j ≡ find c j
unfolding assign
find-assign_ne [] k v j ne = find-miss (record { key = k; val = v }) [] j (same_text_ne k j ne)
find-assign_ne (e ∷ es) k v j ne = elim (Bool-cases (same_text e.key k)) [
  | inl h ↦
      let other : same_text e.key j ≡ false =
        ap (λ t. same_text t j) (same_text-eq e.key k h) ∙ same_text_ne k j ne in
      ap (λ c. find c j) (assign-hit e es k v h)
      ∙ find-miss (record e { val = v }) es j other
      ∙ sym (find-miss e es j other)
  | inr h ↦
      ap (λ c. find c j) (assign-miss e es k v h)
      ∙ past e (assign es k v) es (find-assign_ne es k v j ne)
]
  where
    past : (e : Entry) (c d : Config) → find c j ≡ find d j → find (e ∷ c) j ≡ find (e ∷ d) j
    past e c d h = elim (Bool-cases (same_text e.key j)) [
      | inl hit ↦ find-hit e c j hit ∙ sym (find-hit e d j hit)
      | inr miss ↦ find-miss e c j miss ∙ h ∙ sym (find-miss e d j miss)
    ]

length-assign : (c : Config) (k v : List ℕ) → length (assign c k v) ≤ length c + 1
unfolding assign
length-assign [] k v = omega arith
length-assign (e ∷ es) k v = elim (Bool-cases (same_text e.key k)) [
  | inl h ↦ omega (arith, ap length (assign-hit e es k v h))
  | inr h ↦ omega (arith, ap length (assign-miss e es k v h), length-assign es k v)
]

-- The value that a line gives a key.
abbrev given : Line → (key : List ℕ) → Option (List ℕ)
given Line.ignored key = none
given Line.rejected key = none
given (Line.assignment k v) key = if same_text k key then some v else none

abbrev or_before : Option (List ℕ) → Option (List ℕ) → Option (List ℕ)
or_before (some v) before = some v
or_before none before = before

-- The last value that the lines give a key, and otherwise `before`.
abbrev pub last_value :
    List (List ℕ) → (key : List ℕ) → (before : Option (List ℕ)) → Option (List ℕ)
last_value [] key before = before
last_value (l ∷ ls) key before = last_value ls key (or_before (given (read_line l) key) before)

-- Every line fits the buffer and is blank, a comment or an assignment.
abbrev pub IsReadable : List (List ℕ) → Type 0
IsReadable [] = Unit
IsReadable (l ∷ ls) = ((length l < line_len) × (read_line l ≢ Line.rejected)) × IsReadable ls

parse_line-ignored :
    (c : Config) (l : List ℕ) → read_line l ≡ Line.ignored → parse_line c l ≡ (c, true)
unfolding parse_line
parse_line-ignored c l h = rw (h, parse_line) refl

parse_line-assignment :
    (c : Config) (l k v : List ℕ)
    → read_line l ≡ Line.assignment k v
    → length c < max_entries
    → parse_line c l ≡ (assign c k v, true)
unfolding parse_line
parse_line-assignment c l k v h room =
    rw (h, parse_line) (ap (λ b. if b then (c, false) else (assign c k v, true)) fits)
  where
    fits : not (has c k) && (length c == max_entries) ≡ false
    fits = ground arith

true_ne_false : true ≡ false → ⊥
true_ne_false e = ground arith

find-assign :
    (c : Config) (k v j : List ℕ)
    → find (assign c k v) j ≡ or_before (if same_text k j then some v else none) (find c j)
find-assign c k v j = elim (Bool-cases (same_text k j)) [
  | inl h ↦
      subst (λ t. find (assign c k v) t ≡ some v) (same_text-eq k j h) (find-assign_self c k v)
      ∙ ap (λ b. or_before (if b then some v else none) (find c j)) (sym h)
  | inr h ↦
      find-assign_ne c k v j
        (λ e. true_ne_false (sym (same_text_refl k) ∙ ap (λ t. same_text k t) e ∙ h))
      ∙ ap (λ b. or_before (if b then some v else none) (find c j)) (sym h)
]

-- One readable line, with room for an entry: it is accepted, and every key has the value that the
-- line gives it, or the value that it had.
parse_line-find :
    (c : Config) (l : List ℕ)
    → length c < max_entries
    → read_line l ≢ Line.rejected
    → (next : Config) × (parse_line c l ≡ (next, true))
      × (length next ≤ length c + 1)
      × ((j : List ℕ) → find next j ≡ or_before (given (read_line l) j) (find c j))
parse_line-find c l room readable = go (read_line l) refl
  where
    go :
        (r : Line)
        → read_line l ≡ r
        → (next : Config) × (parse_line c l ≡ (next, true))
          × (length next ≤ length c + 1)
          × ((j : List ℕ) → find next j ≡ or_before (given (read_line l) j) (find c j))
    go Line.ignored e = (
      c,
      parse_line-ignored c l e,
      omega arith,
      λ j. ap (λ t. or_before (given t j) (find c j)) (sym e),
    )
    go Line.rejected e = absurd (readable e)
    go (Line.assignment k v) e = (
      assign c k v,
      parse_line-assignment c l k v e room,
      length-assign c k v,
      λ j. find-assign c k v j ∙ ap (λ t. or_before (given t j) (find c j)) (sym e),
    )

parse_lines-next :
    (c next : Config) (ok : Bool) (l : List ℕ) (ls : List (List ℕ))
    → length l < line_len
    → parse_line c l ≡ (next, true)
    → parse_lines c ok (l ∷ ls) ≡ parse_lines next ok ls
unfolding parse_lines
parse_lines-next c next ok l ls short h =
    let fits : leb line_len (length l) ≡ false = ground arith in
    ap
      (λ b.
        if b
        then parse_lines c false ls
        else parse_lines (parse_line c l).0 (ok && (parse_line c l).1) ls)
      fits
    ∙ ap (λ p. parse_lines p.0 (ok && p.1) ls) h
    ∙ ap (λ b. parse_lines next b ls) (and_true ok)
  where
    and_true : (b : Bool) → b && true ≡ b
    and_true b = ground arith

parse_lines-find :
    (c : Config) (ok : Bool) (ls : List (List ℕ))
    → IsReadable ls
    → length c + length ls ≤ max_entries
    → ((parse_lines c ok ls).1 ≡ ok)
      × ((j : List ℕ) → find (parse_lines c ok ls).0 j ≡ last_value ls j (find c j))
unfolding parse_lines
parse_lines-find c ok [] r room = (refl, λ j. refl)
parse_lines-find c ok (l ∷ ls) r room =
    let (next, step, longer, same) = parse_line-find c l (omega arith) r.0.1 in
    let whole = parse_lines-next c next ok l ls r.0.0 step in
    let (done, rest) = parse_lines-find next ok ls r.1 (omega arith) in
    (
      ap (λ p. p.1) whole ∙ done,
      λ j. ap (λ p. find p.0 j) whole ∙ rest j ∙ ap (λ t. last_value ls j t) (same j),
    )

-- Any entries and a text whose lines all fit the buffer and are blank, comments or assignments,
-- where the entries and the lines together are at most 256: the text is read without a complaint,
-- and a key then has the value of the last line that assigns it, or what it had before if no line
-- does.
pub parse-find :
    (c : Config) (text : List ℕ)
    → IsReadable (lines text)
    → length c + length (lines text) ≤ max_entries
    → ((parse c text).1 ≡ true)
      × ((key : List ℕ) → find (parse c text).0 key ≡ last_value (lines text) key (find c key))
unfolding parse
parse-find c text r room = parse_lines-find c true (lines text) r room
