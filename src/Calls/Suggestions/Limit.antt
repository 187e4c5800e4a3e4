-- ===== src/Calls/Suggestions/Limit.antt =====
-- `admit_coaching_suggestion` (app/calls/models.py) does not let the active suggestions grow past the
-- maximum, and gives up a suggestion only for one of greater rank.
use mathlib.Core.List.{Perm}
use cma_real_time_coaching.Prelude.{
  ℕ, suc, ◌≤◌, ◌<◌, ◌≡◌, refl, ap, sym, subst, ◌⊎◌, inl, inr, true, false, Bool-cases, Option, none,
  some, List, [], ◌∷◌, ◌++◌, map, String, string_eq, arith, All, All-map, length, length-append,
  if◌then◌else◌, leb, leb-true, leb-false,
}
use cma_real_time_coaching.Prelude.Index.{includes}
use cma_real_time_coaching.Prelude.Sort.{sort, sort-perm, perm-length}
use cma_real_time_coaching.Events.Models.{CoachingSuggestionEvent, is_confirmed}
use cma_real_time_coaching.Calls.Types.{CallCoachingMetadata, CallState, TextMethods}
use cma_real_time_coaching.Calls.Labels.{
  Detection, record_detected_labels, upsert_label_revision_diagnostic,
}
use cma_real_time_coaching.Calls.Suggestions.{
  Attribution, Admission, id_of, lesser, without, candidate_of, detection_of, record_label, confirm,
  weakest, enter, evict, compete, admit,
}
use cma_real_time_coaching.Calls.Suggestions.Rank.{
  ranks_before, rank_le, rank_le_total, rank_le_trans, coaching_rank,
}

-- The rank of the first is not greater than that of the second.
abbrev IsNoBetter : TextMethods → CallCoachingMetadata → CallCoachingMetadata → Type 0
IsNoBetter t m n = rank_le (coaching_rank t.casefold m) (coaching_rank t.casefold n) ≡ true

rank_le_refl : (t : TextMethods) (m : CallCoachingMetadata) → IsNoBetter t m m
rank_le_refl t m =
    elim (Bool-cases (rank_le (coaching_rank t.casefold m) (coaching_rank t.casefold m))) [
      | inl yes_le ↦ yes_le
      | inr not_le ↦ rank_le_total (coaching_rank t.casefold m) (coaching_rank t.casefold m) not_le
    ]

IsNoBetter-trans :
    (t : TextMethods) (m n o : CallCoachingMetadata)
    → IsNoBetter t m n
    → IsNoBetter t n o
    → IsNoBetter t m o
IsNoBetter-trans t m n o =
    rank_le_trans (coaching_rank t.casefold m) (coaching_rank t.casefold n)
      (coaching_rank t.casefold o)

lesser-cases :
    (t : TextMethods) (m n : CallCoachingMetadata)
    → ((lesser t m n ≡ m) × IsNoBetter t m n) ⊎ ((lesser t m n ≡ n) × IsNoBetter t n m)
unfolding lesser
lesser-cases t m n =
    elim (Bool-cases (rank_le (coaching_rank t.casefold m) (coaching_rank t.casefold n))) [
      | inl stays ↦ inl (ap (λ b. if b then m else n) stays, stays)
      | inr less ↦ inr (
        ap (λ b. if b then m else n) less,
        rank_le_total (coaching_rank t.casefold m) (coaching_rank t.casefold n) less,
      )
    ]

lesser-IsNoBetter :
    (t : TextMethods) (m n o : CallCoachingMetadata)
    → IsNoBetter t o (lesser t m n)
    → IsNoBetter t o m × IsNoBetter t o n
lesser-IsNoBetter t m n o h = elim (lesser-cases t m n) [
  | inl (e, k) ↦ let q = subst (IsNoBetter t o) e h in (q, IsNoBetter-trans t o m n q k)
  | inr (e, k) ↦ let q = subst (IsNoBetter t o) e h in (IsNoBetter-trans t o n m q k, q)
]

-- The weakest is better than none of them.
weakest-All :
    (t : TextMethods) (m : CallCoachingMetadata) (ms : List CallCoachingMetadata)
    → All (IsNoBetter t (weakest t m ms)) (m ∷ ms)
unfolding weakest
weakest-All t m [] = (rank_le_refl t m, tt)
weakest-All t m (x ∷ xs) =
    let (h, a) = weakest-All t (lesser t m x) xs in
    let (p, q) = lesser-IsNoBetter t m x (weakest t (lesser t m x) xs) h in (p, (q, a))

-- The weakest is one of them.
weakest-cases :
    (P : CallCoachingMetadata → Type 0) (t : TextMethods) (m : CallCoachingMetadata)
    (ms : List CallCoachingMetadata)
    → All P (m ∷ ms)
    → P (weakest t m ms)
unfolding weakest
weakest-cases P t m [] a = a.0
weakest-cases P t m (x ∷ xs) a = weakest-cases P t (lesser t m x) xs (
  elim (lesser-cases t m x) [
    | inl (e, k) ↦ subst P (sym e) a.0
    | inr (e, k) ↦ subst P (sym e) a.1.0
  ],
  a.1.1,
)

All-listed :
    (ms : List CallCoachingMetadata) → All (λ m. includes m.suggestion_id (map id_of ms) ≡ true) ms
unfolding includes
All-listed [] = tt
All-listed (m ∷ ms) = (
  ground (arith, (string_eq.beq_iff m.suggestion_id m.suggestion_id).1 refl),
  All-map _ _ ms (λ n e. ground (arith, e)) (All-listed ms),
)

length-without_le :
    (i : String) (ms : List CallCoachingMetadata) → length (without i ms) ≤ length ms
unfolding without
length-without_le i [] = omega arith
length-without_le i (m ∷ ms) = ground (arith, length-without_le i ms)

length-without :
    (i : String) (ms : List CallCoachingMetadata)
    → includes i (map id_of ms) ≡ true
    → length (without i ms) < length ms
unfolding without includes
length-without i [] e = cc
length-without i (m ∷ ms) e = ground (arith, e, length-without_le i ms, length-without i ms)

-- The two states have the same suggestions.
abbrev SameSuggestions : CallState → CallState → Type 0
SameSuggestions s u =
    (s.active_coaching_suggestions ≡ u.active_coaching_suggestions)
    × (s.coaching_suggestions ≡ u.coaching_suggestions)
    × (s.coaching_suggestion_history ≡ u.coaching_suggestion_history)

record_label-Same :
    (t : TextMethods) (d : Detection) (label : Option String) (s : CallState)
    → SameSuggestions (record_label t d label s) s
unfolding record_detected_labels upsert_label_revision_diagnostic
record_label-Same t d none s = (refl, refl, refl)
record_label-Same t d (some label) s = (refl, refl, refl)

confirm-Same :
    (t : TextMethods) (event : CoachingSuggestionEvent) (a : Attribution) (s : CallState)
    → SameSuggestions (confirm t event a s) s
unfolding confirm
confirm-Same t event a s = elim (Bool-cases (is_confirmed event.lifecycle)) [
  | inl confirmed ↦
      rw (confirmed, confirm) (record_label-Same t (detection_of event a) event.label_id s)
  | inr other ↦ rw (other, confirm) (refl, refl, refl)
]

-- The candidate entered: it is active with `others`, and the last of all suggestions.
abbrev pub Entered :
    TextMethods
    → CallState
    → CallCoachingMetadata
    → List CallCoachingMetadata
    → List CallCoachingMetadata
    → CallState
    → Type 0
Entered t s c others history u =
    Perm u.active_coaching_suggestions (others ++ c ∷ [])
    × (u.coaching_suggestions ≡ s.coaching_suggestions ++ c ∷ [])
    × (u.coaching_suggestion_history ≡ history)

-- The candidate did not enter: none of the active suggestions is worse.
abbrev pub Refused : TextMethods → CallState → CallCoachingMetadata → Admission → Type 0
Refused t s c r =
    (r.admitted ≡ false)
    × (r.replaced ≡ none)
    × (r.state ≡ s)
    × All (IsNoBetter t c) s.active_coaching_suggestions

-- The candidate took the place of an active suggestion that is better than none and worse than it.
abbrev pub Replaced : TextMethods → CallState → CallCoachingMetadata → Admission → Type 0
Replaced t s c r =
    (w : CallCoachingMetadata) × (r.admitted ≡ true)
    × (r.replaced ≡ some w)
    × All (IsNoBetter t w) s.active_coaching_suggestions
    × (rank_le (coaching_rank t.casefold c) (coaching_rank t.casefold w) ≡ false)
    × (length (without w.suggestion_id s.active_coaching_suggestions)
        < length s.active_coaching_suggestions)
    × Entered t s c (without w.suggestion_id s.active_coaching_suggestions)
        (s.coaching_suggestion_history ++ w ∷ []) r.state

enter-Entered :
    (t : TextMethods) (event : CoachingSuggestionEvent) (a : Attribution) (c : CallCoachingMetadata)
    (s : CallState)
    → Entered t s c s.active_coaching_suggestions s.coaching_suggestion_history
        (enter t event a c s)
unfolding enter
enter-Entered t event a c s =
    let k = confirm-Same t event a (record s {
      coaching_suggestions = s.coaching_suggestions ++ c ∷ [];
      active_coaching_suggestions =
          sort (ranks_before t.casefold) (s.active_coaching_suggestions ++ c ∷ []);
    }) in
    (
      subst (λ x. Perm x (s.active_coaching_suggestions ++ c ∷ [])) (sym k.0)
          (sort-perm (ranks_before t.casefold) (s.active_coaching_suggestions ++ c ∷ [])),
      k.1,
      k.2,
    )

compete-Decides :
    (t : TextMethods) (event : CoachingSuggestionEvent) (a : Attribution) (s : CallState)
    (active : List CallCoachingMetadata)
    → active ≡ s.active_coaching_suggestions
    → 1 ≤ length active
    → Refused t s (candidate_of event a s) (compete t event a s active)
      ⊎ Replaced t s (candidate_of event a s) (compete t event a s active)
unfolding compete evict
compete-Decides t event a s [] e h = absurd (omega (arith, h))
compete-Decides t event a s (x ∷ xs) e h =
    let c = candidate_of event a s in
    let w = weakest t x xs in
    let least = subst (All (IsNoBetter t w)) e (weakest-All t x xs) in
    elim (Bool-cases (rank_le (coaching_rank t.casefold c) (coaching_rank t.casefold w))) [
      | inl no_better ↦
          rw (no_better, compete)
            (inl
              (refl, refl, refl, All-map _ _ _ (λ m k. IsNoBetter-trans t c w m no_better k) least))
      | inr better ↦
          let fewer =
            subst (λ y. length (without w.suggestion_id y) < length y) e
              (length-without w.suggestion_id (x ∷ xs) (
                weakest-cases (λ m. includes m.suggestion_id (map id_of (x ∷ xs)) ≡ true) t x xs
                  (All-listed (x ∷ xs)))) in
          rw (better, compete)
            (inr (w, refl, refl, least, better, fewer, enter-Entered t event a c (evict w s)))
    ]

-- With a maximum of at least 1: if fewer suggestions than that are active, the candidate enters and none is
-- replaced; otherwise it is refused and nothing changes, where its rank is no higher than that of any active
-- one, or it takes the place of an active one whose rank is lower than its own and higher than that of no
-- active one, which goes to the end of the history.
pub admit-Decides :
    (t : TextMethods) (event : CoachingSuggestionEvent) (a : Attribution) (maximum : ℕ)
    (s : CallState)
    → 1 ≤ maximum
    → let r = admit t event a maximum s in
      let c = candidate_of event a s in
      ((length s.active_coaching_suggestions < maximum)
        × (r.admitted ≡ true)
        × (r.replaced ≡ none)
        × Entered t s c s.active_coaching_suggestions s.coaching_suggestion_history r.state)
      ⊎ ((maximum ≤ length s.active_coaching_suggestions) × (Refused t s c r ⊎ Replaced t s c r))
unfolding admit
admit-Decides t event a maximum s h =
    elim (Bool-cases (leb maximum (length s.active_coaching_suggestions))) [
      | inr room ↦
          rw (room, admit)
            (inl
              (leb-false _ _ room, refl, refl, enter-Entered t event a (candidate_of event a s) s))
      | inl full ↦
          let enough = leb-true maximum (length s.active_coaching_suggestions) full in
          rw (full, admit)
            (inr (
              enough,
              compete-Decides t event a s s.active_coaching_suggestions refl
                  (omega (arith, h, enough)),
            ))
    ]

Entered-length :
    (t : TextMethods) (s : CallState) (c : CallCoachingMetadata)
    (others history : List CallCoachingMetadata) (u : CallState)
    → Entered t s c others history u
    → length u.active_coaching_suggestions ≡ suc (length others)
Entered-length t s c others history u e =
    omega (arith, perm-length e.0, length-append others (c ∷ []))

-- With a maximum of at least 1, the number of active suggestions stays within any bound that it is within
-- before and that the maximum is within.
pub admit-length :
    (t : TextMethods) (event : CoachingSuggestionEvent) (a : Attribution) (maximum bound : ℕ)
    (s : CallState)
    → 1 ≤ maximum
    → maximum ≤ bound
    → length s.active_coaching_suggestions ≤ bound
    → length (admit t event a maximum s).state.active_coaching_suggestions ≤ bound
admit-length t event a maximum bound s h m l =
    let c = candidate_of event a s in
    elim (admit-Decides t event a maximum s h) [
      | inl (room, _, _, e) ↦ omega (
        arith,
        m,
        room,
        Entered-length t s c s.active_coaching_suggestions s.coaching_suggestion_history _ e,
      )
      | inr (full, inl (_, _, same, _)) ↦
          subst (λ u. length u.active_coaching_suggestions ≤ bound) (sym same) l
      | inr (full, inr (w, _, _, _, _, fewer, e)) ↦ omega (
        arith,
        l,
        fewer,
        Entered-length t s c (without w.suggestion_id s.active_coaching_suggestions)
            (s.coaching_suggestion_history ++ w ∷ []) _ e,
      )
    ]
