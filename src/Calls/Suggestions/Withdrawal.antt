-- ===== src/Calls/Suggestions/Withdrawal.antt =====
-- `withdraw_coaching_suggestion` (app/calls/models.py) of a suggestion that is known, and of one that is not.
use cma_real_time_coaching.Prelude.{
  ◌≡◌, refl, ◌∙◌, ◌⊎◌, inl, inr, true, false, Bool-cases, none, some, Option-cases, List, [], ◌∷◌,
  ◌++◌, map, String, ◌==◌, string_eq, arith, All,
}
use cma_real_time_coaching.Prelude.Index.{includes}
use cma_real_time_coaching.Events.Models.{CoachingSuggestionLifecycle}
use cma_real_time_coaching.Calls.Types.{CallCoachingMetadata, CallState}
use cma_real_time_coaching.Calls.Suggestions.{
  id_of, without, replace, find_suggestion, withdrawable, withdraw_coaching_suggestion,
}
use cma_real_time_coaching.Calls.Suggestions.Active.{find_suggestion-id, replace-ids}

without-none :
    (i : String) (ms : List CallCoachingMetadata) → find_suggestion i (without i ms) ≡ none
unfolding without find_suggestion
without-none i [] = refl
without-none i (m ∷ ms) = ground (arith, without-none i ms)

find_suggestion-none :
    (i : String) (ms : List CallCoachingMetadata)
    → find_suggestion i ms ≡ none
    → includes i (map id_of ms) ≡ false
unfolding find_suggestion includes
find_suggestion-none i [] e = refl
find_suggestion-none i (m ∷ ms) e = ground (arith, e, find_suggestion-none i ms)

-- If a suggestion has the identifier, its lifecycle is that it was withdrawn.
abbrev pub IsWithdrawn : String → CallCoachingMetadata → Type 0
IsWithdrawn i m = m.suggestion_id ≡ i → m.lifecycle ≡ CoachingSuggestionLifecycle.withdrawn

replace-IsWithdrawn :
    (i : String) (gone : CallCoachingMetadata) (ms : List CallCoachingMetadata)
    → gone.lifecycle ≡ CoachingSuggestionLifecycle.withdrawn
    → All (IsWithdrawn i) (replace i gone ms)
unfolding replace
replace-IsWithdrawn i gone [] e = tt
replace-IsWithdrawn i gone (m ∷ ms) e = elim (Bool-cases (m.suggestion_id == i)) [
  | inl same ↦ rw (same, replace) ((λ _. e), replace-IsWithdrawn i gone ms e)
  | inr other ↦
      rw (other, replace)
        (
          (λ q. absurd (ground (arith, other, (string_eq.beq_iff m.suggestion_id i).1 q))),
          replace-IsWithdrawn i gone ms e,
        )
]

-- What the withdrawal of a known suggestion does.
pub record Withdrawn (i : String) (s u : CallState) : Type 0 where
  pub inactive : find_suggestion i u.active_coaching_suggestions ≡ none
  pub marked : All (IsWithdrawn i) u.coaching_suggestions
  pub same_ids : map id_of u.coaching_suggestions ≡ map id_of s.coaching_suggestions
  pub remembered :
      (gone : CallCoachingMetadata) × (u.coaching_suggestion_history
        ≡ s.coaching_suggestion_history ++ gone ∷ [])
      × (gone.suggestion_id ≡ i)
      × (gone.lifecycle ≡ CoachingSuggestionLifecycle.withdrawn)

withdrawable-known :
    (i : String) (s : CallState) (m : CallCoachingMetadata)
    → withdrawable i s ≡ some m
    → m.suggestion_id ≡ i
unfolding withdrawable
withdrawable-known i s m e = elim (Option-cases (find_suggestion i s.active_coaching_suggestions)) [
  | inl missing ↦ find_suggestion-id i s.coaching_suggestions m (ground (arith, e, missing))
  | inr (n, f) ↦ find_suggestion-id i s.active_coaching_suggestions m (f ∙ ground (arith, e, f))
]

withdrawable-none :
    (i : String) (s : CallState)
    → withdrawable i s ≡ none
    → (includes i (map id_of s.active_coaching_suggestions) ≡ false)
      × (includes i (map id_of s.coaching_suggestions) ≡ false)
unfolding withdrawable
withdrawable-none i s e = elim (Option-cases (find_suggestion i s.active_coaching_suggestions)) [
  | inl missing ↦ (
    find_suggestion-none i s.active_coaching_suggestions missing,
    find_suggestion-none i s.coaching_suggestions (ground (arith, e, missing)),
  )
  | inr (n, f) ↦ absurd (ground (arith, e, f))
]

-- Either no suggestion has the identifier, the answer is false and the state stays; or the answer is true,
-- no active suggestion has the identifier any more, all with it are withdrawn, the identifiers of all
-- suggestions are as before, and the history ends with a withdrawn suggestion of the identifier.
pub withdraw_coaching_suggestion-cases :
    (i : String) (s : CallState)
    → let r = withdraw_coaching_suggestion i s in
      ((r.0 ≡ false)
        × (r.1 ≡ s)
        × (includes i (map id_of s.active_coaching_suggestions) ≡ false)
        × (includes i (map id_of s.coaching_suggestions) ≡ false))
      ⊎ ((r.0 ≡ true) × Withdrawn i s r.1)
unfolding withdraw_coaching_suggestion
withdraw_coaching_suggestion-cases i s = elim (Option-cases (withdrawable i s)) [
  | inl missing ↦
      let (a, b) = withdrawable-none i s missing in
      rw (missing, withdraw_coaching_suggestion) (inl (refl, refl, a, b))
  | inr (m, e) ↦
      let gone : CallCoachingMetadata = record m {
        lifecycle = CoachingSuggestionLifecycle.withdrawn;
      } in
      let same = withdrawable-known i s m e in
      rw (e, withdraw_coaching_suggestion)
        (inr (
          refl,
          record {
            inactive = without-none i s.active_coaching_suggestions;
            marked = replace-IsWithdrawn i gone s.coaching_suggestions refl;
            same_ids = replace-ids i gone s.coaching_suggestions same;
            remembered = (gone, refl, same, refl);
          },
        ))
]
