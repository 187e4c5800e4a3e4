-- ===== src/Calls/Labels/Persistence.antt =====
-- `record_detected_labels` (app/calls/models.py) forgets no detected label for which there is something to do.
use cma_real_time_coaching.Prelude.{
  ◌≡◌, refl, sym, subst, inl, inr, true, false, Bool-cases, ◌||◌, List, [], ◌∷◌, String, ◌==◌,
  string_eq, arith, All, is_empty,
}
use cma_real_time_coaching.Prelude.Dict
use cma_real_time_coaching.Prelude.Dict.{Dict}
use cma_real_time_coaching.Prelude.Index.{
  includes, keys, index_into, index_into-Indexes, empty-Indexes, map-values,
}
use cma_real_time_coaching.Events.Labels.{canonical_labels, only_actions}
use cma_real_time_coaching.Calls.Types.{CallDetectedLabelMetadata, CallState, TextMethods}
use cma_real_time_coaching.Calls.Labels.Accumulated.{detect_each-Indexes}
use cma_real_time_coaching.Calls.Labels.{
  Detection, detected, labels_of, detect_each, business_items, incoming, existing,
  record_detected_labels, upsert_label_revision_diagnostic,
}

abbrev label_key : CallDetectedLabelMetadata → String
label_key m = m.label

keys-put :
    (l k : String) (m : CallDetectedLabelMetadata) (d : Dict String CallDetectedLabelMetadata)
    → includes l (keys d) ≡ true
    → includes l (keys (Dict.put k m d)) ≡ true
unfolding Dict.put includes
keys-put l k m [] e = cc
keys-put l k m ((j, n) ∷ d) e = ground (arith, e, keys-put l k m d)

keys-put_same :
    (k : String) (m : CallDetectedLabelMetadata) (d : Dict String CallDetectedLabelMetadata)
    → includes k (keys (Dict.put k m d)) ≡ true
unfolding Dict.put includes
keys-put_same k m [] = ground (arith, (string_eq.beq_iff k k).1 refl)
keys-put_same k m ((j, n) ∷ d) = ground (arith, keys-put_same k m d)

keys-detect_each :
    (l : String) (d : Detection) (labels : List String)
    (known : Dict String CallDetectedLabelMetadata)
    → includes l (keys known) ≡ true
    → includes l (keys (detect_each d labels known)) ≡ true
unfolding detect_each
keys-detect_each l d [] known e = e
keys-detect_each l d (label ∷ labels) known e =
    keys-detect_each l d labels _
      (keys-put l label (detected d label (Dict.get label known)) known e)

keys-index_into :
    (l : String) (ms : List CallDetectedLabelMetadata)
    (known : Dict String CallDetectedLabelMetadata)
    → (includes l (labels_of ms) || includes l (keys known)) ≡ true
    → includes l (keys (index_into label_key ms known)) ≡ true
unfolding index_into includes
keys-index_into l [] known e = e
keys-index_into l (m ∷ ms) known e =
    keys-index_into l ms (Dict.put m.label m known) (elim (Bool-cases (m.label == l)) [
      | inl same ↦
          let q = (string_eq.beq_iff m.label l).0 same in
          ground (
            arith,
            subst (λ x. includes x (keys (Dict.put m.label m known)) ≡ true) q
                (keys-put_same m.label m known),
          )
      | inr other ↦ ground (arith, e, other, keys-put l m.label m known)
    ])

business_items-includes :
    (l : String) (ms : List CallDetectedLabelMetadata)
    → (l == "no_action") ≡ false
    → includes l (labels_of ms) ≡ true
    → includes l (labels_of (business_items ms)) ≡ true
unfolding business_items includes
business_items-includes l [] b e = cc
business_items-includes l (m ∷ ms) b e = ground (
  arith,
  b,
  e,
  string_eq.beq_iff m.label l,
  string_eq.beq_iff m.label "no_action",
  string_eq.beq_iff l "no_action",
  business_items-includes l ms b,
)

existing-includes :
    (l : String) (cleaned : List String) (ms : List CallDetectedLabelMetadata)
    → (l == "no_action") ≡ false
    → includes l (labels_of ms) ≡ true
    → includes l (labels_of (existing cleaned ms)) ≡ true
unfolding existing
existing-includes l cleaned ms b e = elim (Bool-cases (is_empty (only_actions cleaned))) [
  | inl idle ↦ rw (idle, existing) e
  | inr business ↦ rw (business, existing) (business_items-includes l ms b e)
]

abbrev AnyText : String → Type 0
AnyText l = Unit

all_unit : (ms : List CallDetectedLabelMetadata) → All (λ m. AnyText (label_key m)) ms
all_unit [] = tt
all_unit (m ∷ ms) = (tt, all_unit ms)

all_unit_labels : (ls : List String) → All AnyText ls
all_unit_labels [] = tt
all_unit_labels (l ∷ ls) = (tt, all_unit_labels ls)

-- The second state has all the detected labels of the first but perhaps `no_action`.
abbrev pub Keeps : CallState → CallState → Type 0
Keeps s u =
    (l : String)
    → (l == "no_action") ≡ false
    → includes l (labels_of s.detected_labels) ≡ true
    → includes l (labels_of u.detected_labels) ≡ true

pub record_detected_labels-Keeps :
    (t : TextMethods) (d : Detection) (labels : List String) (s : CallState)
    → Keeps s (record_detected_labels t d labels s)
unfolding record_detected_labels upsert_label_revision_diagnostic
record_detected_labels-Keeps t d labels s l b e =
    let cleaned = canonical_labels t.strip t.casefold labels in
    let new = incoming cleaned s.detected_labels in
    let old = existing cleaned s.detected_labels in
    let start = index_into label_key old [] in
    let dict = detect_each d new start in
    let i = detect_each-Indexes AnyText d new start (all_unit_labels new) (
      index_into-Indexes label_key AnyText old [] (all_unit old)
        (empty-Indexes label_key AnyText)) in
    subst (λ ls. includes l ls ≡ true) (sym (map-values label_key dict i.keyed))
      (keys-detect_each l d new start (
        keys-index_into l old []
          (ground (arith, existing-includes l cleaned s.detected_labels b e))))
