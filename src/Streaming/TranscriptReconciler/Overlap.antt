-- ===== src/Streaming/TranscriptReconciler/Overlap.antt =====
-- Which overlap `_new_suffix` (app/streaming/transcript_reconciler.py) finds, and which segments are partial.
use cma_real_time_coaching.Prelude.{
  ℕ, zero, suc, ◌≤◌, ◌<◌, ◌≡◌, refl, ap, sym, subst, ◌∙◌, ◌⊎◌, Bool, true, false, Bool-cases, inl,
  inr, not, ◌||◌, none, some, List, [], ◌∷◌, map, list_eq, nat_eq, list_beq, list_beq_iff, leb,
  leb-true, leb-false, is_empty, length, take, drop, All, All-map, All-drop, arith,
}
use cma_real_time_coaching.Prelude.Sort.{sort}
use cma_real_time_coaching.Prelude.Text.{Text, join, split, split-join, split-IsWord_all}
use cma_real_time_coaching.Streaming.TranscriptReconciler.Suffix.{
  WordMethods, normalize_word, last_words, exact_overlap, min_of, overlap, new_suffix,
}
use cma_real_time_coaching.Streaming.TranscriptReconciler.{
  ReconcilerConfig, WindowTranscriptionResult, WindowTranscriptionSegment, has_settled,
  starts_before, same_segment, select, is_in, partial_segments,
}

-- The last `size` texts of the one are the first of the other.
abbrev pub OverlapsAt : List Text → List Text → ℕ → Type 0
OverlapsAt existing candidate size = last_words size existing ≡ take size candidate

-- No size from `above` on, up to `maximum`, is an overlap.
abbrev pub NoneAbove : List Text → List Text → ℕ → ℕ → Type 0
NoneAbove existing candidate above maximum =
    (k : ℕ) → above < k → k ≤ maximum → ¬ OverlapsAt existing candidate k

-- The size is the largest overlap, up to `maximum`.
pub record IsLargest (existing candidate : List Text) (maximum size : ℕ) : Type 0 where
  pub positive : 1 ≤ size
  pub bounded : size ≤ maximum
  pub overlaps : OverlapsAt existing candidate size
  pub largest : NoneAbove existing candidate size maximum

NoneAbove-suc :
    (existing candidate : List Text) (above n : ℕ)
    → NoneAbove existing candidate above n
    → ¬ OverlapsAt existing candidate (suc n)
    → NoneAbove existing candidate above (suc n)
NoneAbove-suc existing candidate above n h last k low high o = elim (Bool-cases (leb k n)) [
  | inl within ↦ h k low (leb-true k n within) o
  | inr beyond ↦
      let q : k ≡ suc n = omega (arith, leb-false k n beyond, high) in
      last (subst (OverlapsAt existing candidate) q o)
]

-- The search finds the largest overlap up to its bound, or there is none.
pub exact_overlap-cases :
    (n : ℕ) (existing candidate : List Text)
    → ((exact_overlap n existing candidate ≡ none) × NoneAbove existing candidate 0 n)
      ⊎ ((size : ℕ) × (exact_overlap n existing candidate ≡ some size)
          × IsLargest existing candidate n size)
unfolding exact_overlap
exact_overlap-cases zero existing candidate = inl (refl, λ k low high o. omega (arith, low, high))
exact_overlap-cases (suc n) existing candidate =
    elim (Bool-cases (list_beq (last_words (suc n) existing) (take (suc n) candidate))) [
      | inl here ↦
          rw (here, exact_overlap)
            (inr (
              suc n,
              refl,
              record {
                positive = omega arith;
                bounded = omega arith;
                overlaps = (list_beq_iff _ _).0 here;
                largest = λ k low high o. omega (arith, low, high);
              },
            ))
      | inr not_here ↦
          let differs : ¬ OverlapsAt existing candidate (suc n) = λ o. ground (
            arith,
            not_here,
            (list_beq_iff (last_words (suc n) existing) (take (suc n) candidate)).1 o,
          ) in
          rw (not_here, exact_overlap)
            (elim (exact_overlap-cases n existing candidate) [
              | inl (e, h) ↦ inl (e, NoneAbove-suc existing candidate 0 n h differs)
              | inr (size, e, l) ↦ inr (
                size,
                e,
                record {
                  positive = l.positive;
                  bounded = omega (arith, l.bounded);
                  overlaps = l.overlaps;
                  largest = NoneAbove-suc existing candidate size n l.largest differs;
                },
              )
            ])
    ]

abbrev pub normalized : WordMethods → Text → List Text
normalized w text = map (normalize_word w) (split w.is_space text)

-- The most that two texts can overlap.
abbrev pub shorter : WordMethods → Text → Text → ℕ
shorter w existing candidate =
    min_of (length (normalized w existing)) (length (normalized w candidate))

overlap-IsLargest :
    (w : WordMethods) (existing candidate : List Text) (k : ℕ)
    → 1 ≤ k
    → k ≤ min_of (length existing) (length candidate)
    → OverlapsAt existing candidate k
    → IsLargest existing candidate
        (min_of (length existing) (length candidate))
        (overlap w existing candidate)
      × (k ≤ overlap w existing candidate)
unfolding overlap
overlap-IsLargest w existing candidate k low high o =
    let m = min_of (length existing) (length candidate) in
    elim (exact_overlap-cases m existing candidate) [
      | inl (e, h) ↦ absurd (h k low high o)
      | inr (size, e, l) ↦
          rw (e, overlap)
            (
              l,
              elim (Bool-cases (leb k size)) [
                | inl within ↦ leb-true k size within
                | inr beyond ↦ absurd (l.largest k (leb-false k size beyond) high o)
              ],
            )
    ]

is_empty-length : (xs : List Text) → 1 ≤ length xs → is_empty xs ≡ false
is_empty-length [] h = absurd (omega (arith, h))
is_empty-length (x ∷ xs) h = refl

-- If an overlap is allowed, the space character is white space, and the normalized words of the candidate overlap
-- with the end of the transcript at some size, then the new suffix has the words of the candidate after the largest
-- such overlap.
pub new_suffix-IsLargest :
    (w : WordMethods) (existing candidate : Text) (k : ℕ)
    → w.is_space b' ' ≡ true
    → 1 ≤ k
    → k ≤ shorter w existing candidate
    → OverlapsAt (normalized w existing) (normalized w candidate) k
    → (size : ℕ) × (k ≤ size)
      × IsLargest
          (normalized w existing)
          (normalized w candidate)
          (shorter w existing candidate)
          size
      × (split w.is_space (new_suffix w existing candidate true)
          ≡ drop size (split w.is_space candidate))
unfolding new_suffix
new_suffix-IsLargest w existing candidate k blank low high o =
    let ne = normalized w existing in
    let nc = normalized w candidate in
    let (l, further) = overlap-IsLargest w ne nc k low high o in
    let some_e = is_empty-length ne (ground (arith, low, high)) in
    let some_c = is_empty-length nc (ground (arith, low, high)) in
    rw (some_e, some_c, new_suffix)
      (
        overlap w ne nc,
        further,
        l,
        split-join w.is_space blank (drop (overlap w ne nc) (split w.is_space candidate)) (
            All-drop _ (overlap w ne nc) (split w.is_space candidate)
              (split-IsWord_all w.is_space candidate)),
      )

drop-all : (n : ℕ) (xs : List Text) → length xs ≤ n → drop n xs ≡ []
drop-all zero [] h = refl
drop-all (suc n) [] h = refl
drop-all zero (x ∷ xs) h = absurd (omega (arith, h))
drop-all (suc n) (x ∷ xs) h = drop-all n xs (omega (arith, h))

-- The new suffix is empty if the transcript ends with all words of the candidate.
pub new_suffix-repeated :
    (w : WordMethods) (existing candidate : Text)
    → 1 ≤ length (split w.is_space candidate)
    → length (split w.is_space candidate) ≤ shorter w existing candidate
    → OverlapsAt
        (normalized w existing)
        (normalized w candidate)
        (length (split w.is_space candidate))
    → new_suffix w existing candidate true ≡ []
unfolding new_suffix join
new_suffix-repeated w existing candidate low high o =
    let ne = normalized w existing in
    let nc = normalized w candidate in
    let words = split w.is_space candidate in
    let (l, further) = overlap-IsLargest w ne nc (length words) low high o in
    let some_e = is_empty-length ne (ground (arith, low, high)) in
    let some_c = is_empty-length nc (ground (arith, low, high)) in
    rw (some_e, some_c, new_suffix) (ap join (drop-all (overlap w ne nc) words further))

-- Whether two segments that are the same pass a test.
abbrev Respects : (WindowTranscriptionSegment → Bool) → Type 0
Respects test = (x y : WindowTranscriptionSegment) → same_segment x y ≡ true → test x ≡ test y

module _ (test : WindowTranscriptionSegment → Bool) (respects : Respects test) where
  dropped :
      (x : WindowTranscriptionSegment) (ys : List WindowTranscriptionSegment)
      → test x ≡ false
      → is_in x (select test ys) ≡ false
  unfolding is_in select
  dropped x [] e = refl
  dropped x (y ∷ ys) e = elim (Bool-cases (test y)) [
    | inr out ↦ rw (out, select) (dropped x ys e)
    | inl kept ↦
        let apart : same_segment x y ≡ false = elim (Bool-cases (same_segment x y)) [
          | inr differ ↦ differ
          | inl same ↦ absurd (ground (arith, e, kept, respects x y same))
        ] in
        rw (kept, select) (ap (λ b. b || is_in x (select test ys)) apart ∙ dropped x ys e)
  ]

  retained :
      (x : WindowTranscriptionSegment) (ys : List WindowTranscriptionSegment)
      → test x ≡ true
      → is_in x ys ≡ true
      → is_in x (select test ys) ≡ true
  unfolding is_in select
  retained x [] e i = i
  retained x (y ∷ ys) e i = elim (Bool-cases (same_segment x y)) [
    | inl same ↦
        rw (sym (respects x y same) ∙ e, select) (ap (λ b. b || is_in x (select test ys)) same)
    | inr differ ↦
        let later : is_in x ys ≡ true = sym (ap (λ b. b || is_in x ys) differ) ∙ i in
        elim (Bool-cases (test y)) [
          | inl kept ↦
              rw (kept, select)
                (ap (λ b. b || is_in x (select test ys)) differ ∙ retained x ys e later)
          | inr out ↦ rw (out, select) (retained x ys e later)
        ]
  ]

  select-unselected :
      (xs ys : List WindowTranscriptionSegment)
      → All (λ x. is_in x ys ≡ true) xs
      → select (λ x. not (is_in x (select test ys))) xs ≡ select (λ x. not (test x)) xs
  unfolding select
  select-unselected [] ys a = refl
  select-unselected (x ∷ xs) ys a = elim (Bool-cases (test x)) [
    | inl kept ↦ rw (kept, retained x ys kept a.0) (select-unselected xs ys a.1)
    | inr out ↦ rw (out, dropped x ys out) (ap (◌∷◌ x) (select-unselected xs ys a.1))
  ]

list_same : (xs : Text) → list_beq xs xs ≡ true
list_same xs = (list_beq_iff xs xs).1 refl

same_segment_refl : (x : WindowTranscriptionSegment) → same_segment x x ≡ true
same_segment_refl x = ground (arith, list_same x.text)

is_in_self : (xs : List WindowTranscriptionSegment) → All (λ x. is_in x xs ≡ true) xs
unfolding is_in
is_in_self [] = tt
is_in_self (x ∷ xs) = (
  ap (λ b. b || is_in x xs) (same_segment_refl x),
  All-map _ _ xs (λ y e. ground (arith, e)) (is_in_self xs),
)

has_settled-Respects : (c : ReconcilerConfig) (window_end : ℕ) → Respects (has_settled c window_end)
has_settled-Respects c window_end x y e = ground (arith, e)

-- The partial segments are those of the window, in order, that have not settled.
pub partial_segments-unsettled :
    (c : ReconcilerConfig) (r : WindowTranscriptionResult)
    → partial_segments c r
      ≡ select (λ x. not (has_settled c r.window_end_seconds x)) (sort starts_before r.segments)
partial_segments-unsettled c r =
    let ordered = sort starts_before r.segments in
    select-unselected (has_settled c r.window_end_seconds)
      (has_settled-Respects c r.window_end_seconds) ordered ordered (is_in_self ordered)
