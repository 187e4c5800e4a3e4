-- ===== src/Calls/Suggestions/Active.antt =====
-- What the methods of `CallState` for suggestions (app/calls/models.py) keep of the active ones: their
-- order by rank, and that each is listed among all suggestions.
use cma_real_time_coaching.Prelude.{
  ◌≡◌, refl, ap, sym, subst, ◌∙◌, true, Bool-cases, inl, inr, some, List, [], ◌∷◌, ◌++◌, map,
  String, ◌==◌, string_eq, arith, All, All-map, All-append,
}
use cma_real_time_coaching.Prelude.Index.{includes}
use cma_real_time_coaching.Prelude.Sort.{sort, IsSorted, sort-IsSorted, All-sort}
use cma_real_time_coaching.Calls.Types.{CallCoachingMetadata, TextMethods}
use cma_real_time_coaching.Calls.Suggestions.{id_of, without, replace, find_suggestion}
use cma_real_time_coaching.Calls.Suggestions.Rank.{ranks_before, ranks_before-IsPreorder}

-- The suggestion is among those of the list, by its identifier.
abbrev pub IsListed : List CallCoachingMetadata → CallCoachingMetadata → Type 0
IsListed every m = includes (id_of m) (map id_of every) ≡ true

-- The suggestions of a call: those that are active stand by rank, and all of them are listed.
pub record AreRanked (t : TextMethods) (active every : List CallCoachingMetadata) : Type 0 where
  pub sorted : IsSorted (ranks_before t.casefold) active
  pub listed : All (IsListed every) active

pub without-All :
    (P : CallCoachingMetadata → Type 0) (i : String) (ms : List CallCoachingMetadata)
    → All P ms
    → All P (without i ms)
unfolding without
without-All P i [] a = tt
without-All P i (m ∷ ms) a = elim (Bool-cases (m.suggestion_id == i)) [
  | inl same ↦ rw (same, without) (without-All P i ms a.1)
  | inr other ↦ rw (other, without) (a.0, without-All P i ms a.1)
]

without-IsSorted :
    (t : TextMethods) (i : String) (ms : List CallCoachingMetadata)
    → IsSorted (ranks_before t.casefold) ms
    → IsSorted (ranks_before t.casefold) (without i ms)
unfolding without
without-IsSorted t i [] s = tt
without-IsSorted t i (m ∷ ms) s = elim (Bool-cases (m.suggestion_id == i)) [
  | inl same ↦ rw (same, without) (without-IsSorted t i ms s.1)
  | inr other ↦ rw (other, without) (without-All _ i ms s.0, without-IsSorted t i ms s.1)
]

includes-append :
    (i : String) (ms ns : List CallCoachingMetadata)
    → includes i (map id_of ms) ≡ true
    → includes i (map id_of (ms ++ ns)) ≡ true
unfolding includes
includes-append i [] ns e = cc
includes-append i (m ∷ ms) ns e = ground (arith, e, includes-append i ms ns)

includes-last :
    (ms : List CallCoachingMetadata) (m : CallCoachingMetadata)
    → includes (id_of m) (map id_of (ms ++ m ∷ [])) ≡ true
unfolding includes
includes-last [] m = ground (arith, (string_eq.beq_iff m.suggestion_id m.suggestion_id).1 refl)
includes-last (n ∷ ms) m = ground (arith, includes-last ms m)

-- The first suggestion of an identifier has it.
pub find_suggestion-id :
    (i : String) (ms : List CallCoachingMetadata) (m : CallCoachingMetadata)
    → find_suggestion i ms ≡ some m
    → m.suggestion_id ≡ i
unfolding find_suggestion
find_suggestion-id i [] m e = cc
find_suggestion-id i (n ∷ ms) m e = elim (Bool-cases (n.suggestion_id == i)) [
  | inl same ↦
      let q : n ≡ m = ground (arith, same, e) in ap id_of (sym q) ∙ (string_eq.beq_iff _ _).0 same
  | inr other ↦ find_suggestion-id i ms m (ground (arith, other, e))
]

-- A replacement under the same identifier leaves the identifiers as they are.
pub replace-ids :
    (i : String) (m : CallCoachingMetadata) (ms : List CallCoachingMetadata)
    → m.suggestion_id ≡ i
    → map id_of (replace i m ms) ≡ map id_of ms
unfolding replace
replace-ids i m [] e = refl
replace-ids i m (n ∷ ms) e = elim (Bool-cases (n.suggestion_id == i)) [
  | inl same ↦
      rw (same, replace)
        (λ j. (e ∙ sym ((string_eq.beq_iff n.suggestion_id i).0 same)) j ∷ replace-ids i m ms e j)
  | inr other ↦ rw (other, replace) (ap (◌∷◌ n.suggestion_id) (replace-ids i m ms e))
]

All-ids :
    (P : String → Type 0) (ms : List CallCoachingMetadata)
    → All (λ m. P (id_of m)) ms
    → All P (map id_of ms)
All-ids P [] a = tt
All-ids P (m ∷ ms) a = (a.0, All-ids P ms a.1)

ids-All :
    (P : String → Type 0) (ms : List CallCoachingMetadata)
    → All P (map id_of ms)
    → All (λ m. P (id_of m)) ms
ids-All P [] a = tt
ids-All P (m ∷ ms) a = (a.0, ids-All P ms a.1)

module _ (t : TextMethods) (active every : List CallCoachingMetadata)
    (r : AreRanked t active every) where
  pub enter-AreRanked :
      (m : CallCoachingMetadata)
      → AreRanked t (sort (ranks_before t.casefold) (active ++ m ∷ [])) (every ++ m ∷ [])
  enter-AreRanked m = record {
    sorted =
        sort-IsSorted (ranks_before t.casefold) (ranks_before-IsPreorder t.casefold)
          (active ++ m ∷ []);
    listed = All-sort (ranks_before t.casefold) (IsListed (every ++ m ∷ [])) (active ++ m ∷ []) (
        All-append (IsListed (every ++ m ∷ [])) active (m ∷ [])
          (All-map _ _ active (λ n h. includes-append (id_of n) every (m ∷ []) h) r.listed)
          (includes-last every m, tt));
  }

  pub append-AreRanked : (m : CallCoachingMetadata) → AreRanked t active (every ++ m ∷ [])
  append-AreRanked m = record {
    sorted = r.sorted;
    listed = All-map _ _ active (λ n h. includes-append (id_of n) every (m ∷ []) h) r.listed;
  }

  pub without-AreRanked : (i : String) → AreRanked t (without i active) every
  without-AreRanked i = record {
    sorted = without-IsSorted t i active r.sorted;
    listed = without-All (IsListed every) i active r.listed;
  }

  pub replace-AreRanked :
      (i : String) (m : CallCoachingMetadata)
      → m.suggestion_id ≡ i
      → AreRanked t active (replace i m every)
  replace-AreRanked i m e = record {
    sorted = r.sorted;
    listed =
        subst (λ ids. All (λ n. includes (id_of n) ids ≡ true) active)
          (sym (replace-ids i m every e)) r.listed;
  }

  pub update-AreRanked :
      (i : String) (m : CallCoachingMetadata)
      → m.suggestion_id ≡ i
      → AreRanked t (sort (ranks_before t.casefold) (replace i m active)) every
  update-AreRanked i m e = record {
    sorted =
        sort-IsSorted (ranks_before t.casefold) (ranks_before-IsPreorder t.casefold)
          (replace i m active);
    listed = All-sort (ranks_before t.casefold) (IsListed every) (replace i m active) (
        ids-All (λ x. includes x (map id_of every) ≡ true) (replace i m active)
          (subst (All (λ x. includes x (map id_of every) ≡ true)) (sym (replace-ids i m active e))
            (All-ids (λ x. includes x (map id_of every) ≡ true) active r.listed)));
  }
