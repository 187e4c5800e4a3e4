-- ===== src/Events/Labels/Canonical.antt =====
-- What `canonical_labels` of app/events/labels.py gives.
use cma_real_time_coaching.Prelude.{
  ◌≡◌, refl, sym, ◌∙◌, ap, subst, ◌⊎◌, inl, inr, true, false, Bool-cases, Option, Option-cases,
  some, List, [], ◌∷◌, ◌++◌, String, ◌==◌, string_eq, arith, All, All-append,
}
use cma_real_time_coaching.Prelude.Dict.{All-get}
use cma_real_time_coaching.Prelude.Index.{includes, AllDifferent}
use cma_real_time_coaching.Events.Labels.{
  canonical_names, label_aliases, canonical_label, collect, any_action, only_actions,
  canonical_labels,
}

abbrev pub IsCanonical : String → Type 0
IsCanonical l = includes l canonical_names ≡ true

aliases-AreCanonical : All (λ x. IsCanonical x.1) label_aliases
unfolding includes
aliases-AreCanonical = (refl, (refl, (refl, (refl, (refl, (refl, tt))))))

-- A label that is given a name is given a canonical one.
pub label-IsCanonical :
    (strip casefold : String → String) (label name : String)
    → canonical_label strip casefold label ≡ some name
    → IsCanonical name
unfolding canonical_label
label-IsCanonical strip casefold label name e =
    elim (Bool-cases (includes (strip label) canonical_names)) [
      | inl known ↦
          let same : strip label ≡ name = ground (arith, e, known) in subst IsCanonical same known
      | inr other ↦
          All-get (λ x. IsCanonical x.1) (casefold (strip label)) label_aliases name
            aliases-AreCanonical (ground (arith, e, other))
    ]

includes-snoc :
    (l n : String) (ls : List String)
    → includes l ls ≡ false
    → includes n ls ≡ false
    → includes n (l ∷ ls) ≡ false
    → (includes l (ls ++ n ∷ []) ≡ false)
unfolding includes
includes-snoc l n [] a b c = ground (arith, c, string_eq.beq_iff l n, string_eq.beq_iff n l)
includes-snoc l n (x ∷ ls) a b c = ground (arith, a, b, c, includes-snoc l n ls)

pub AllDifferent-snoc :
    (ls : List String) (n : String)
    → AllDifferent ls
    → includes n ls ≡ false
    → AllDifferent (ls ++ n ∷ [])
unfolding includes
AllDifferent-snoc [] n d e = (refl, tt)
AllDifferent-snoc (l ∷ ls) n d e =
    (includes-snoc l n ls d.0 (ground (arith, e)) e, AllDifferent-snoc ls n d.1 (ground (arith, e)))

collect-AllDifferent :
    (normalize : String → Option String) (P : String → Type 0)
    → ((label name : String) → normalize label ≡ some name → P name)
    → (result labels : List String) → AllDifferent result
    → All P result
    → AllDifferent (collect normalize result labels) × All P (collect normalize result labels)
unfolding collect
collect-AllDifferent normalize P h result [] d a = (d, a)
collect-AllDifferent normalize P h result (label ∷ labels) d a =
    elim (Option-cases (normalize label)) [
      | inl e ↦ rw (e, collect) (collect-AllDifferent normalize P h result labels d a)
      | inr (name, e) ↦ elim (Bool-cases (includes name result)) [
        | inl known ↦ rw (e, known, collect) (collect-AllDifferent normalize P h result labels d a)
        | inr new ↦
            rw (e, new, collect)
              (collect-AllDifferent normalize P h (result ++ name ∷ []) labels
                (AllDifferent-snoc result name d new)
                (All-append P result (name ∷ []) a (h label name e, tt)))
      ]
    ]

includes-only_actions :
    (n : String) (ls : List String) → includes n ls ≡ false → includes n (only_actions ls) ≡ false
unfolding includes only_actions
includes-only_actions n [] e = refl
includes-only_actions n (l ∷ ls) e = ground (arith, e, includes-only_actions n ls)

pub only_actions-AllDifferent :
    (P : String → Type 0) (ls : List String)
    → AllDifferent ls
    → All P ls
    → AllDifferent (only_actions ls)
      × All P (only_actions ls)
      × (includes "no_action" (only_actions ls) ≡ false)
unfolding only_actions includes
only_actions-AllDifferent P [] d a = (tt, tt, refl)
only_actions-AllDifferent P (l ∷ ls) d a =
    let v = only_actions-AllDifferent P ls d.1 a.1 in
    elim (Bool-cases (l == "no_action")) [
      | inl same ↦ rw (same, only_actions) v
      | inr other ↦
          rw (other, only_actions)
            ((includes-only_actions l ls d.0, v.0), (a.0, v.1), ground (arith, other, v.2))
    ]

-- A list without actions and without repetition has `no_action` at most once.
idle-AllDifferent :
    (ls : List String)
    → AllDifferent ls
    → any_action ls ≡ false
    → (ls ≡ []) ⊎ (ls ≡ "no_action" ∷ [])
unfolding any_action includes
idle-AllDifferent [] d e = inl refl
idle-AllDifferent (l ∷ []) d e =
    let same : l ≡ "no_action" = (string_eq.beq_iff _ _).0 (ground (arith, e)) in
    inr (ap (λ x. x ∷ []) same)
idle-AllDifferent (l ∷ k ∷ ls) d e =
    let first : l ≡ "no_action" = (string_eq.beq_iff _ _).0 (ground (arith, e)) in
    let second : k ≡ "no_action" = (string_eq.beq_iff _ _).0 (ground (arith, e)) in
    absurd (ground (arith, d.0, (string_eq.beq_iff k l).1 (second ∙ sym first)))

-- What a list of canonical labels is.
pub record Canonical (ls : List String) : Type 0 where
  pub known : All IsCanonical ls
  pub different : AllDifferent ls
  pub idle_alone : (includes "no_action" ls ≡ false) ⊎ (ls ≡ "no_action" ∷ [])

-- Whatever `str.strip` and `str.casefold` give, `canonical_labels` gives canonical names, none of them
-- twice, and `no_action` only if it is the only one.
pub canonical_labels-Canonical :
    (strip casefold : String → String) (labels : List String)
    → Canonical (canonical_labels strip casefold labels)
unfolding canonical_labels includes
canonical_labels-Canonical strip casefold labels =
    let result = collect (canonical_label strip casefold) [] labels in
    let (d, a) =
      collect-AllDifferent (canonical_label strip casefold) IsCanonical
        (label-IsCanonical strip casefold) [] labels tt tt in
    let v = only_actions-AllDifferent IsCanonical result d a in
    elim (Bool-cases (any_action result)) [
      | inl active ↦
          rw (active, canonical_labels)
            (record { known = v.1; different = v.0; idle_alone = inl v.2 })
      | inr idle ↦
          rw (idle, canonical_labels)
            (record {
              known = a;
              different = d;
              idle_alone = elim (idle-AllDifferent result d idle) [
                | inl none_left ↦ inl (ap (includes "no_action") none_left)
                | inr alone ↦ inr alone
              ];
            })
    ]
