-- ===== src/Streaming/TranscriptReconciler/Suffix.antt =====
-- `_new_suffix` of app/streaming/transcript_reconciler.py: the part of a candidate that is not yet in the
-- transcript. The number of matches that `difflib.SequenceMatcher` finds is a parameter; its ratio, twice
-- this number by the words of both sides, is a fraction, and fractions are compared by their products.
use cma_real_time_coaching.Prelude.{
  ℕ, zero, suc, ◌+◌, ◌-◌, ◌*◌, Bool, not, ◌&&◌, ◌||◌, Option, none, some, List, [], ◌∷◌, map, ◌==◌,
  ltb, leb, list_eq, nat_eq, list_beq, if◌then◌else◌, is_empty, length, take, drop,
}
use cma_real_time_coaching.Prelude.Text.{Text, split, join}

-- What the reconciler uses of `str`, `unicodedata` and `difflib`.
pub record WordMethods : Type 0 where
  pub is_space : ℕ → Bool
  pub casefold : Text → Text
  pub is_mark : ℕ → Bool
  pub matches : List Text → List Text → ℕ

-- [character for character in text if not is_mark(character)]
unfoldable pub without_marks : (ℕ → Bool) → Text → Text
without_marks is_mark [] = []
without_marks is_mark (c ∷ cs) =
    let rest = without_marks is_mark cs in if not (is_mark c) then c ∷ rest else rest

-- `_normalize_word`
abbrev pub normalize_word : WordMethods → Text → Text
normalize_word w word = without_marks w.is_mark (w.casefold word)

-- words[-size:], for a size of at least 1
abbrev pub last_words : ℕ → List Text → List Text
last_words size words = drop (length words - size) words

-- The first loop: the largest size, down from `size`, at which the end of the one is the start of the other.
unfoldable pub exact_overlap : ℕ → List Text → List Text → Option ℕ
exact_overlap zero existing candidate = none
exact_overlap (suc n) existing candidate =
    let smaller = exact_overlap n existing candidate in
    if list_beq (last_words (suc n) existing) (take (suc n) candidate)
    then some (suc n)
    else smaller

-- `match`: the score `2 * matched / total`, the difference of the sizes, which counts against the match,
-- and the size of the candidate.
pub record Match : Type 0 where
  pub matched : ℕ
  pub total : ℕ
  pub difference : ℕ
  pub size : ℕ

-- (0.0, 0, 0)
abbrev pub no_match : Match
no_match = record { matched = 0; total = 1; difference = 0; size = 0 }

-- match > best_match
abbrev pub exceeds : Match → Match → Bool
exceeds m best =
    if m.matched * best.total == best.matched * m.total
    then (if m.difference == best.difference
        then ltb best.size m.size
        else ltb m.difference best.difference)
    else ltb (best.matched * m.total) (m.matched * best.total)

-- `score >= required_score`: 0.82 if the lesser size is below 5, else 0.66
abbrev pub suffices : ℕ → Match → Bool
suffices lesser m =
    if ltb lesser 5
    then leb (82 * m.total) (200 * m.matched)
    else leb (66 * m.total) (200 * m.matched)

abbrev pub min_of : ℕ → ℕ → ℕ
min_of a b = if leb a b then a else b

-- abs(a - b)
abbrev pub distance : ℕ → ℕ → ℕ
distance a b = (a - b) + (b - a)

-- The body of the inner loop.
unfoldable pub consider : WordMethods → List Text → List Text → ℕ → ℕ → Match → Match
consider w existing candidate e c best =
    let m : Match = record {
      matched = w.matches (last_words e existing) (take c candidate);
      total = e + c;
      difference = distance e c;
      size = c;
    } in
    if suffices (min_of e c) m && exceeds m best then m else best

-- The inner loop: `count` sizes of the candidate, from `c` on.
unfoldable pub candidate_sizes : WordMethods → List Text → List Text → ℕ → ℕ → ℕ → Match → Match
unfolding consider
candidate_sizes w existing candidate e zero c best = best
candidate_sizes w existing candidate e (suc count) c best =
    candidate_sizes w existing candidate e count (suc c) (consider w existing candidate e c best)

-- max(2, e - 2), and the number of sizes from there to min(len(candidate), e + 2)
abbrev pub first_size : ℕ → ℕ
first_size e = if leb 2 (e - 2) then e - 2 else 2

abbrev pub count_of_sizes : ℕ → ℕ → ℕ
count_of_sizes e words = suc (min_of words (e + 2)) - first_size e

-- The outer loop, from the size `e` down to 2.
unfoldable pub existing_sizes : WordMethods → List Text → List Text → ℕ → Match → Match
unfolding candidate_sizes
existing_sizes w existing candidate zero best = best
existing_sizes w existing candidate (suc zero) best = best
existing_sizes w existing candidate (suc (suc n)) best =
    let e = suc (suc n) in
    existing_sizes w existing candidate (suc n) (
      candidate_sizes w existing candidate e (count_of_sizes e (length candidate)) (first_size e)
        best)

-- How many words of the candidate are in the transcript.
unfoldable pub overlap : WordMethods → List Text → List Text → ℕ
unfolding exact_overlap existing_sizes
overlap w existing candidate =
    let maximum = min_of (length existing) (length candidate) in
    elim (exact_overlap maximum existing candidate) [
      | some size ↦ size
      | none ↦ (existing_sizes w existing candidate maximum no_match).size
    ]

-- `_new_suffix`
unfoldable pub new_suffix : WordMethods → Text → Text → Bool → Text
unfolding overlap join
new_suffix w existing candidate allow_overlap =
    let candidate_words = split w.is_space candidate in
    let normalized_existing = map (normalize_word w) (split w.is_space existing) in
    let normalized_candidate = map (normalize_word w) candidate_words in
    if not allow_overlap
    then candidate
    else if is_empty normalized_existing || is_empty normalized_candidate
    then candidate
    else join (drop (overlap w normalized_existing normalized_candidate) candidate_words)
