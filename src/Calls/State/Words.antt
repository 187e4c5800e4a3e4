-- ===== src/Calls/State/Words.antt =====
-- `_append_stable` (app/calls/models.py), by the words of the transcript.
use cma_real_time_coaching.Prelude.{
  ℕ, ◌≡◌, refl, ap, ◌∙◌, ◌⊎◌, inl, inr, Bool, true, Bool-cases, List, [], ◌∷◌, ◌++◌, ◌==◌, list_eq,
  nat_eq, list_beq_iff,
}
use cma_real_time_coaching.Prelude.Text.{
  Text, split, clean, strip_text, ends_with, ends_with_lem, split-append, split-clean,
  split-non_empty, split-strip_text,
}
use cma_real_time_coaching.Calls.State.{append_stable}

module _ (is_space : ℕ → Bool) (blank : is_space b' ' ≡ true) where
  -- If the space character is white space: either the words of the text are those that the transcript ends
  -- with, and the transcript stays as it is, or they come after the words of the transcript.
  pub append_stable-words :
      (text stable : Text)
      → let after = append_stable is_space text stable in
        ((after ≡ stable)
          × (front : List Text) × (split is_space stable ≡ front ++ split is_space text))
        ⊎ (split is_space after ≡ split is_space stable ++ split is_space text)
  unfolding append_stable
  append_stable-words text stable =
      let cleaned = clean is_space text in
      elim (Bool-cases (stable == cleaned)) [
        | inl whole ↦
            rw (whole, append_stable)
              (inl (
                refl,
                [],
                ap (split is_space) ((list_beq_iff stable cleaned).0 whole)
                    ∙ split-clean is_space blank text,
              ))
        | inr differs ↦ elim (Bool-cases (ends_with stable (b' ' ∷ cleaned))) [
          | inl ends ↦
              let (front, e) = ends_with_lem stable (b' ' ∷ cleaned) ends in
              rw (differs, ends, append_stable)
                (inl (
                  refl,
                  split is_space front,
                  ap (split is_space) e
                      ∙ split-append is_space blank front cleaned
                      ∙ ap (◌++◌ (split is_space front)) (split-clean is_space blank text),
                ))
          | inr new ↦
              rw (differs, new, append_stable)
                (inr (
                  split-non_empty is_space blank (strip_text is_space stable) cleaned
                  ∙ ap (λ x. x ++ split is_space cleaned) (split-strip_text is_space stable)
                  ∙ ap (◌++◌ (split is_space stable)) (split-clean is_space blank text)))
        ]
      ]
