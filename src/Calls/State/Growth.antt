-- ===== src/Calls/State/Growth.antt =====
-- What the methods of `CallState` for suggestions (app/calls/models.py) leave as it was or let grow.
use cma_real_time_coaching.Prelude.{
  suc, ◌≤◌, ◌≡◌, refl, ap, sym, subst, ◌∙◌, Bool-cases, inl, inr, Option, none, some, Option-cases,
  List, [], ◌∷◌, ◌++◌, String, string_eq, arith, leb, length, length-append,
}
use cma_real_time_coaching.Prelude.Int.{ℤ, pos_part, ◌≤ℤ◌}
use cma_real_time_coaching.Events.Models.{
  CoachingSuggestionEvent, CoachingSuggestionLifecycle, is_confirmed,
}
use cma_real_time_coaching.Calls.Types.{CallCoachingMetadata, CallState, Result, TextMethods}
use cma_real_time_coaching.Calls.Labels.Persistence.{Keeps, record_detected_labels-Keeps}
use cma_real_time_coaching.Calls.Labels.{
  Detection, record_detected_labels, upsert_label_revision_diagnostic,
}
use cma_real_time_coaching.Calls.Suggestions.{
  Attribution, in_scope, replace, find_suggestion, candidate_of, updated_by, detection_of,
  record_label, confirm, weakest, enter, evict, compete, admit, admit_coaching_suggestion,
  apply_coaching_suggestion, update_coaching_suggestion, withdrawable, withdraw_coaching_suggestion,
}
use cma_real_time_coaching.Calls.Suggestions.Rank.{rank_le, coaching_rank}
use cma_real_time_coaching.Calls.State.{admitted_state}

-- The second state may come after the first: of the same call, neither the revision nor the last audio
-- sequence is less, and no fewer suggestions are known or past.
pub record Grown (s u : CallState) : Type 0 where
  pub tenant : u.tenant_id ≡ s.tenant_id
  pub call : u.call_id ≡ s.call_id
  pub revision : s.transcript_revision ≤ u.transcript_revision
  pub audio : s.last_audio_sequence ≤ℤ u.last_audio_sequence
  pub suggestions : length s.coaching_suggestions ≤ length u.coaching_suggestions
  pub history : length s.coaching_suggestion_history ≤ length u.coaching_suggestion_history
  pub labels : Keeps s u

pub Grown-trans : (s u w : CallState) → Grown s u → Grown u w → Grown s w
Grown-trans s u w g h = record {
  tenant = h.tenant ∙ g.tenant;
  call = h.call ∙ g.call;
  revision = omega (arith, g.revision, h.revision);
  audio = omega (arith, g.audio, h.audio);
  suggestions = omega (arith, g.suggestions, h.suggestions);
  history = omega (arith, g.history, h.history);
  labels = λ l b e. h.labels l b (g.labels l b e);
}

-- The fields of which `Grown` speaks are the same.
abbrev pub Fixed : CallState → CallState → Type 0
Fixed s u =
    (u.tenant_id ≡ s.tenant_id)
    × (u.call_id ≡ s.call_id)
    × (u.transcript_revision ≡ s.transcript_revision)
    × (u.last_audio_sequence ≡ s.last_audio_sequence)
    × (length u.coaching_suggestions ≡ length s.coaching_suggestions)
    × (length u.coaching_suggestion_history ≡ length s.coaching_suggestion_history)

pub Fixed-Grown : (s u : CallState) → Fixed s u → Keeps s u → Grown s u
Fixed-Grown s u (t, c, r, a, g, h) k = record {
  tenant = t;
  call = c;
  revision = omega (arith, r);
  audio = subst (λ x. s.last_audio_sequence ≤ℤ x) (sym a) (omega arith);
  suggestions = omega (arith, g);
  history = omega (arith, h);
  labels = k;
}

abbrev pub unchanged : (s : CallState) → Fixed s s
unchanged s = (refl, refl, refl, refl, refl, refl)

-- The result is an error, or a state that may come after.
abbrev pub GrownTo : CallState → Result CallState → Type 0
GrownTo s (Result.ok u) = Grown s u
GrownTo s (Result.err e) = Unit

pub record_label-Fixed :
    (t : TextMethods) (d : Detection) (label : Option String) (s : CallState)
    → Fixed s (record_label t d label s)
unfolding record_detected_labels upsert_label_revision_diagnostic
record_label-Fixed t d none s = unchanged s
record_label-Fixed t d (some label) s = unchanged s

pub record_detected_labels-Grown :
    (t : TextMethods) (d : Detection) (labels : List String) (s : CallState)
    → Grown s (record_detected_labels t d labels s)
unfolding record_detected_labels upsert_label_revision_diagnostic
record_detected_labels-Grown t d labels s =
    Fixed-Grown s _ (unchanged s) (record_detected_labels-Keeps t d labels s)

pub confirm-Fixed :
    (t : TextMethods) (event : CoachingSuggestionEvent) (a : Attribution) (s : CallState)
    → Fixed s (confirm t event a s)
unfolding confirm
confirm-Fixed t event a s = elim (Bool-cases (is_confirmed event.lifecycle)) [
  | inl confirmed ↦
      rw (confirmed, confirm) (record_label-Fixed t (detection_of event a) event.label_id s)
  | inr other ↦ rw (other, confirm) (unchanged s)
]

record_label-Keeps :
    (t : TextMethods) (d : Detection) (label : Option String) (s : CallState)
    → Keeps s (record_label t d label s)
record_label-Keeps t d none s l b e = e
record_label-Keeps t d (some label) s l b e = record_detected_labels-Keeps t d (label ∷ []) s l b e

confirm-Keeps :
    (t : TextMethods) (event : CoachingSuggestionEvent) (a : Attribution) (s : CallState)
    → Keeps s (confirm t event a s)
unfolding confirm
confirm-Keeps t event a s l b e = elim (Bool-cases (is_confirmed event.lifecycle)) [
  | inl confirmed ↦
      rw (confirmed, confirm) (record_label-Keeps t (detection_of event a) event.label_id s l b e)
  | inr other ↦ rw (other, confirm) e
]

-- The methods for suggestions change the numbers of suggestions only, and end with `confirm`.
pub with_more :
    (t : TextMethods) (event : CoachingSuggestionEvent) (a : Attribution) (s : CallState)
    (active every history : List CallCoachingMetadata)
    → length s.coaching_suggestions ≤ length every
    → length s.coaching_suggestion_history ≤ length history
    → Grown s (
        confirm t event a (record s {
          active_coaching_suggestions = active;
          coaching_suggestions = every;
          coaching_suggestion_history = history;
        }))
with_more t event a s active every history g h =
    let u : CallState = record s {
      active_coaching_suggestions = active;
      coaching_suggestions = every;
      coaching_suggestion_history = history;
    } in
    Grown-trans s u (confirm t event a u)
      (record {
        tenant = refl;
        call = refl;
        revision = omega arith;
        audio = omega arith;
        suggestions = g;
        history = h;
        labels = λ l b e. e;
      })
      (Fixed-Grown u (confirm t event a u) (confirm-Fixed t event a u) (confirm-Keeps t event a u))

pub length-replace :
    (i : String) (m : CallCoachingMetadata) (ms : List CallCoachingMetadata)
    → length (replace i m ms) ≡ length ms
unfolding replace
length-replace i m [] = refl
length-replace i m (n ∷ ms) = ap suc (length-replace i m ms)

pub enter-Grown :
    (t : TextMethods) (event : CoachingSuggestionEvent) (a : Attribution) (c : CallCoachingMetadata)
    (s : CallState)
    → Grown s (enter t event a c s)
unfolding enter
enter-Grown t event a c s =
    with_more t event a s _ (s.coaching_suggestions ++ c ∷ []) s.coaching_suggestion_history
      (omega (arith, length-append s.coaching_suggestions (c ∷ []))) (omega arith)

pub evict-Grown : (m : CallCoachingMetadata) (s : CallState) → Grown s (evict m s)
unfolding evict
evict-Grown m s = record {
  tenant = refl;
  call = refl;
  revision = omega arith;
  audio = omega arith;
  suggestions = omega arith;
  history = omega (arith, length-append s.coaching_suggestion_history (m ∷ []));
  labels = λ l b e. e;
}

pub compete-Grown :
    (t : TextMethods) (event : CoachingSuggestionEvent) (a : Attribution) (s : CallState)
    (active : List CallCoachingMetadata)
    → Grown s (compete t event a s active).state
unfolding compete
compete-Grown t event a s [] = enter-Grown t event a (candidate_of event a s) s
compete-Grown t event a s (x ∷ xs) =
    let c = candidate_of event a s in
    let w = weakest t x xs in
    elim (Bool-cases (rank_le (coaching_rank t.casefold c) (coaching_rank t.casefold w))) [
      | inl no_better ↦ rw (no_better, compete) (Fixed-Grown s s (unchanged s) (λ l b e. e))
      | inr better ↦
          rw (better, compete)
            (Grown-trans s (evict w s) _ (evict-Grown w s) (enter-Grown t event a c (evict w s)))
    ]

pub admit_coaching_suggestion-Grown :
    (t : TextMethods) (event : CoachingSuggestionEvent) (a : Attribution) (maximum : ℤ)
    (s : CallState)
    → GrownTo s (admitted_state (admit_coaching_suggestion t event a maximum s))
unfolding admit_coaching_suggestion admit
admit_coaching_suggestion-Grown t event a maximum s = elim (Bool-cases (leb (pos_part maximum) 0)) [
  | inl none_allowed ↦ rw (none_allowed, admit_coaching_suggestion) tt
  | inr some_allowed ↦ elim (Bool-cases (in_scope t s event.tenant_id event.call_id)) [
    | inr other ↦ rw (some_allowed, other, admit_coaching_suggestion) tt
    | inl same ↦ elim (Bool-cases (leb (pos_part maximum) (length s.active_coaching_suggestions))) [
      | inl full ↦
          rw (some_allowed, same, full, admit_coaching_suggestion)
            (compete-Grown t event a s s.active_coaching_suggestions)
      | inr room ↦
          rw (some_allowed, same, room, admit_coaching_suggestion)
            (enter-Grown t event a (candidate_of event a s) s)
    ]
  ]
]

pub apply_coaching_suggestion-Grown :
    (t : TextMethods) (event : CoachingSuggestionEvent) (a : Attribution) (s : CallState)
    → GrownTo s (apply_coaching_suggestion t event a s)
unfolding apply_coaching_suggestion
apply_coaching_suggestion-Grown t event a s =
    let c = candidate_of event a s in
    elim (Bool-cases (in_scope t s event.tenant_id event.call_id)) [
      | inr other ↦ rw (other, apply_coaching_suggestion) tt
      | inl same ↦
          elim (Option-cases (find_suggestion event.suggestion_id s.coaching_suggestions)) [
            | inl new ↦
                rw (same, new, apply_coaching_suggestion)
                  (with_more t event a s s.active_coaching_suggestions
                    (s.coaching_suggestions ++ c ∷ []) s.coaching_suggestion_history
                    (omega (arith, length-append s.coaching_suggestions (c ∷ []))) (omega arith))
            | inr (known, e) ↦
                rw (same, e, apply_coaching_suggestion)
                  (with_more t event a s s.active_coaching_suggestions
                    (replace event.suggestion_id c s.coaching_suggestions)
                    s.coaching_suggestion_history
                    (omega (arith, length-replace event.suggestion_id c s.coaching_suggestions))
                    (omega arith))
          ]
    ]

pub update_coaching_suggestion-Grown :
    (t : TextMethods) (event : CoachingSuggestionEvent) (a : Attribution) (s : CallState)
    → GrownTo s (update_coaching_suggestion t event a s)
unfolding update_coaching_suggestion
update_coaching_suggestion-Grown t event a s =
    let i = event.suggestion_id in
    elim (Bool-cases (in_scope t s event.tenant_id event.call_id)) [
      | inr other ↦ rw (other, update_coaching_suggestion) tt
      | inl same ↦ elim (Option-cases (find_suggestion i s.active_coaching_suggestions)) [
        | inl missing ↦ rw (same, missing, update_coaching_suggestion) tt
        | inr (m, e) ↦
            rw (same, e, update_coaching_suggestion)
              (with_more t event a s _ (replace i (updated_by event a m) s.coaching_suggestions)
                s.coaching_suggestion_history
                (omega (arith, length-replace i (updated_by event a m) s.coaching_suggestions))
                (omega arith))
      ]
    ]

pub withdraw_coaching_suggestion-Grown :
    (i : String) (s : CallState) → Grown s (withdraw_coaching_suggestion i s).1
unfolding withdraw_coaching_suggestion
withdraw_coaching_suggestion-Grown i s = elim (Option-cases (withdrawable i s)) [
  | inl missing ↦
      rw (missing, withdraw_coaching_suggestion) (Fixed-Grown s s (unchanged s) (λ l b e. e))
  | inr (m, e) ↦
      let gone : CallCoachingMetadata = record m {
        lifecycle = CoachingSuggestionLifecycle.withdrawn;
      } in
      rw (e, withdraw_coaching_suggestion)
        (record {
          tenant = refl;
          call = refl;
          revision = omega arith;
          audio = omega arith;
          suggestions = omega (arith, length-replace i gone s.coaching_suggestions);
          history = omega (arith, length-append s.coaching_suggestion_history (gone ∷ []));
          labels = λ l b e. e;
        })
]
