-- ===== src/Calls/Labels/Accumulated.antt =====
-- `record_detected_labels` (app/calls/models.py) keeps the detected labels of a call canonical, each
-- once, with `no_action` only alone.
use cma_real_time_coaching.Prelude.{
  ◌≡◌, refl, sym, ap, ◌∙◌, All-zip, subst, ◌⊎◌, inl, inr, false, Bool-cases, Option, none, some,
  List, [], ◌∷◌, String, ◌==◌, string_eq, arith, All, All-map, is_empty, is_empty-true,
}
use cma_real_time_coaching.Prelude.Dict
use cma_real_time_coaching.Prelude.Dict.{Dict, All-get}
use cma_real_time_coaching.Prelude.Index.{
  includes, AllDifferent, keys, values, keys-AllDifferent, keys-All, index_into, Indexes,
  put-Indexes, index_into-Indexes, empty-Indexes, map-values,
}
use cma_real_time_coaching.Events.Labels.{only_actions}
use cma_real_time_coaching.Events.Labels.Canonical.{IsCanonical, Canonical}
use cma_real_time_coaching.Calls.Types.{CallDetectedLabelMetadata}
use cma_real_time_coaching.Calls.Labels.{
  Detection, detected, labels_of, detect_each, business_items, only_idle, incoming, existing,
}

abbrev label_key : CallDetectedLabelMetadata → String
label_key m = m.label

-- A canonical label for which there is something to do.
abbrev IsBusiness : String → Type 0
IsBusiness l = IsCanonical l × ((l == "no_action") ≡ false)

detected-label :
    (d : Detection) (label : String) (known : Dict String CallDetectedLabelMetadata)
    → All (λ x. label_key x.1 ≡ x.0) known
    → (detected d label (Dict.get label known)).label ≡ label
detected-label d label known keyed =
    go (Dict.get label known) (λ m e. All-get (λ x. label_key x.1 ≡ x.0) label known m keyed e)
  where
    go :
        (o : Option CallDetectedLabelMetadata)
        → ((m : CallDetectedLabelMetadata) → o ≡ some m → m.label ≡ label)
        → (detected d label o).label ≡ label
    go none h = refl
    go (some m) h = h m refl

pub detect_each-Indexes :
    (P : String → Type 0) (d : Detection) (labels : List String)
    (known : Dict String CallDetectedLabelMetadata)
    → All P labels
    → Indexes label_key P known
    → Indexes label_key P (detect_each d labels known)
unfolding detect_each
detect_each-Indexes P d [] known a h = h
detect_each-Indexes P d (label ∷ labels) known a h =
    detect_each-Indexes P d labels (Dict.put label (detected d label (Dict.get label known)) known)
      a.1
      (put-Indexes label_key P label (detected d label (Dict.get label known)) known a.0
        (detected-label d label known h.keyed) h)

includes_none :
    (ls : List String) → All (λ l. (l == "no_action") ≡ false) ls → includes "no_action" ls ≡ false
unfolding includes
includes_none [] a = refl
includes_none (l ∷ ls) a = ground (arith, a.0, includes_none ls a.1)

includes_all :
    (ls : List String) → includes "no_action" ls ≡ false → All (λ l. (l == "no_action") ≡ false) ls
unfolding includes
includes_all [] e = tt
includes_all (l ∷ ls) e = (ground (arith, e), includes_all ls (ground (arith, e)))

-- A list of one text without repetition.
pub same-AllDifferent :
    (ls : List String)
    → All (λ l. l ≡ "no_action") ls
    → AllDifferent ls
    → (ls ≡ []) ⊎ (ls ≡ "no_action" ∷ [])
unfolding includes
same-AllDifferent [] a d = inl refl
same-AllDifferent (l ∷ []) a d = inr (ap (λ x. x ∷ []) a.0)
same-AllDifferent (l ∷ k ∷ ls) a d =
    absurd (ground (arith, d.0, (string_eq.beq_iff k l).1 (a.1.0 ∙ sym a.0)))

business-Canonical :
    (d : Dict String CallDetectedLabelMetadata)
    → Indexes label_key IsBusiness d
    → Canonical (labels_of (values d))
business-Canonical d h = subst Canonical (sym (map-values label_key d h.keyed)) (record {
  known = keys-All IsCanonical d (All-map _ _ d (λ x b. b.0) h.own);
  different = keys-AllDifferent d h.distinct;
  idle_alone = inl (
      includes_none (keys d)
        (keys-All (λ l. (l == "no_action") ≡ false) d (All-map _ _ d (λ x b. b.1) h.own)));
})

idle-Canonical :
    (d : Dict String CallDetectedLabelMetadata)
    → Indexes label_key (λ l. l ≡ "no_action") d
    → Canonical (labels_of (values d))
unfolding includes
idle-Canonical d h = subst Canonical (sym (map-values label_key d h.keyed)) (record {
  known = keys-All IsCanonical d (All-map _ _ d (λ x e. subst IsCanonical (sym e) refl) h.own);
  different = keys-AllDifferent d h.distinct;
  idle_alone =
      elim (same-AllDifferent (keys d) (keys-All (λ l. l ≡ "no_action") d h.own)
        (keys-AllDifferent d h.distinct)) [
          | inl none_left ↦ inl (ap (includes "no_action") none_left)
          | inr alone ↦ inr alone
        ];
})

All-labels :
    (P : String → Type 0) (ms : List CallDetectedLabelMetadata)
    → All P (labels_of ms)
    → All (λ m. P m.label) ms
All-labels P [] a = tt
All-labels P (m ∷ ms) a = (a.0, All-labels P ms a.1)

business_items-All :
    (ms : List CallDetectedLabelMetadata)
    → All (λ m. IsCanonical m.label) ms
    → All (λ m. IsBusiness m.label) (business_items ms)
unfolding business_items
business_items-All [] a = tt
business_items-All (m ∷ ms) a = elim (Bool-cases (m.label == "no_action")) [
  | inl same ↦ rw (same, business_items) (business_items-All ms a.1)
  | inr other ↦ rw (other, business_items) ((a.0, other), business_items-All ms a.1)
]

only_actions-All : (ls : List String) → All IsCanonical ls → All IsBusiness (only_actions ls)
unfolding only_actions
only_actions-All [] a = tt
only_actions-All (l ∷ ls) a = elim (Bool-cases (l == "no_action")) [
  | inl same ↦ rw (same, only_actions) (only_actions-All ls a.1)
  | inr other ↦ rw (other, only_actions) ((a.0, other), only_actions-All ls a.1)
]

only_idle-All : (ls : List String) → All (λ l. l ≡ "no_action") (only_idle ls)
unfolding only_idle
only_idle-All [] = tt
only_idle-All (l ∷ ls) = elim (Bool-cases (l == "no_action")) [
  | inl same ↦ rw (same, only_idle) ((string_eq.beq_iff _ _).0 same, only_idle-All ls)
  | inr other ↦ rw (other, only_idle) (only_idle-All ls)
]

-- The labels that come in are canonical.
pub incoming-All :
    (cleaned : List String) (items : List CallDetectedLabelMetadata)
    → All IsCanonical cleaned
    → All IsCanonical (incoming cleaned items)
unfolding incoming includes
incoming-All cleaned items a = elim (Bool-cases (is_empty (only_actions cleaned))) [
  | inr business ↦ rw (business, incoming) (All-map _ _ _ (λ l b. b.0) (only_actions-All cleaned a))
  | inl idle ↦ elim (Bool-cases (is_empty items)) [
    | inr held ↦ rw (idle, held, incoming) tt
    | inl first ↦
        rw (idle, first, incoming)
          (All-map _ _ _ (λ l e. subst IsCanonical (sym e) refl) (only_idle-All cleaned))
  ]
]

-- The detected labels after a call are canonical, each once, and `no_action` is among them only alone.
pub detect_each-Canonical :
    (d : Detection) (cleaned : List String) (items : List CallDetectedLabelMetadata)
    → All IsCanonical cleaned
    → Canonical (labels_of items)
    → Canonical (
        labels_of (
          values (
            detect_each d
              (incoming cleaned items)
              (index_into label_key (existing cleaned items) []))))
unfolding incoming existing
detect_each-Canonical d cleaned items a h = elim (Bool-cases (is_empty (only_actions cleaned))) [
  | inr business ↦
      rw (business, incoming, existing)
        (business-Canonical _ (
          detect_each-Indexes IsBusiness d (only_actions cleaned) _ (only_actions-All cleaned a) (
            index_into-Indexes label_key IsBusiness (business_items items) []
              (business_items-All items (All-labels IsCanonical items h.known))
              (empty-Indexes label_key IsBusiness))))
  | inl idle ↦ elim (Bool-cases (is_empty items)) [
    | inl first ↦
        rw (idle, first, incoming, existing)
          (idle-Canonical _ (
            detect_each-Indexes (λ l. l ≡ "no_action") d (only_idle cleaned) _
              (only_idle-All cleaned)
              (index_into-Indexes label_key (λ l. l ≡ "no_action") items []
                (subst (All (λ (m : CallDetectedLabelMetadata). m.label ≡ "no_action"))
                  (sym (is_empty-true items first)) tt)
                (empty-Indexes label_key (λ l. l ≡ "no_action")))))
    | inr held ↦ elim h.idle_alone [
      | inl active ↦
          rw (idle, held, incoming, existing)
            (unfold detect_each in
              (business-Canonical _ (
                index_into-Indexes label_key IsBusiness items []
                  (All-labels IsBusiness items
                    (All-zip _ _ _ h.known (includes_all (labels_of items) active)))
                  (empty-Indexes label_key IsBusiness))))
      | inr alone ↦
          rw (idle, held, incoming, existing)
            (unfold detect_each in
              (idle-Canonical _ (
                index_into-Indexes label_key (λ l. l ≡ "no_action") items []
                  (All-labels (λ l. l ≡ "no_action") items
                    (subst (All (λ l. l ≡ "no_action")) (sym alone) (refl, tt)))
                  (empty-Indexes label_key (λ l. l ≡ "no_action")))))
    ]
  ]
]
