-- ===== src/Calls/Labels/Timeline.antt =====
-- `_upsert_label_revision_diagnostic` (app/calls/models.py) keeps one diagnostic for each revision, in
-- the order of revisions, and builds none that the validators of the diagnostic would refuse.
use cma_real_time_coaching.Prelude.{
  ℕ, ◌<◌, ◌≡◌, ◌≢◌, refl, sym, subst, Bool-cases, inl, inr, Option, none, some, List, [], ◌∷◌, ◌++◌,
  map, String, ◌==◌, string_eq, nat_eq, nat_beq_iff, arith, All, All-map, All-zip, All-append,
  leb-true,
}
use cma_real_time_coaching.Prelude.Dict
use cma_real_time_coaching.Prelude.Dict.{Dict, All-get}
use cma_real_time_coaching.Prelude.Index.{
  includes, AllDifferent, values, keys-AllDifferent, index_into, Indexes, put-Indexes,
  index_into-Indexes, empty-Indexes, map-values,
}
use cma_real_time_coaching.Prelude.Sort.{
  sort, IsSorted, IsPreorder, sort-IsSorted, All-sort, Apart, sort-Apart,
}
use cma_real_time_coaching.Events.Labels.{collect}
use cma_real_time_coaching.Events.Labels.Canonical.{IsCanonical, Canonical, AllDifferent-snoc}
use cma_real_time_coaching.Calls.Types.{
  CallRevisionLabelEvidence, CallRevisionLabelDiagnostic, CallState,
}
use cma_real_time_coaching.Calls.Labels.{
  Detection, evident, evidence_each, diagnostic_at, other_diagnostics, earlier_labels,
  earlier_evidence, not_among, diagnostic_of, by_revision, upsert_label_revision_diagnostic,
}

abbrev evidence_key : CallRevisionLabelEvidence → String
evidence_key e = e.label

-- What the validators of the diagnostic and its evidence ask: canonical labels, none of them twice.
pub record IsValidDiagnostic (x : CallRevisionLabelDiagnostic) : Type 0 where
  pub current_known : All IsCanonical x.current_labels
  pub current_different : AllDifferent x.current_labels
  pub newly_known : All IsCanonical x.newly_accumulated_labels
  pub newly_different : AllDifferent x.newly_accumulated_labels
  pub evidence_known : All (λ e. IsCanonical e.label) x.evidence
  pub evidence_different : AllDifferent (map evidence_key x.evidence)

-- The diagnostics stand in the order of their revisions, one for each.
abbrev pub Increasing : List CallRevisionLabelDiagnostic → Type 0
Increasing [] = Unit
Increasing (x ∷ xs) = All (λ y. x.transcript_revision < y.transcript_revision) xs × Increasing xs

unique_lem :
    (P : String → Type 0) (result labels : List String)
    → AllDifferent result
    → All P result
    → All P labels
    → AllDifferent (collect (λ l. some l) result labels)
      × All P (collect (λ l. some l) result labels)
unfolding collect
unique_lem P result [] d r a = (d, r)
unique_lem P result (l ∷ labels) d r a = elim (Bool-cases (includes l result)) [
  | inl known ↦ rw (known, collect) (unique_lem P result labels d r a.1)
  | inr new ↦
      rw (new, collect)
        (unique_lem P (result ++ l ∷ []) labels (AllDifferent-snoc result l d new)
          (All-append P result (l ∷ []) r (a.0, tt)) a.1)
]

-- Labels that are not among the known ones.
pub not_among-All :
    (P : String → Type 0) (known ls : List String) → All P ls → All P (not_among known ls)
unfolding not_among
not_among-All P known [] a = tt
not_among-All P known (l ∷ ls) a = elim (Bool-cases (includes l known)) [
  | inl old ↦ rw (old, not_among) (not_among-All P known ls a.1)
  | inr new ↦ rw (new, not_among) (a.0, not_among-All P known ls a.1)
]

evident-label :
    (d : Detection) (label : String) (o : Option CallRevisionLabelEvidence)
    → (evident d label o).label ≡ label
evident-label d label none = refl
evident-label d label (some e) = refl

evidence_each-Indexes :
    (P : String → Type 0) (d : Detection) (labels : List String)
    (known : Dict String CallRevisionLabelEvidence)
    → All P labels
    → Indexes evidence_key P known
    → Indexes evidence_key P (evidence_each d labels known)
unfolding evidence_each
evidence_each-Indexes P d [] known a h = h
evidence_each-Indexes P d (label ∷ labels) known a h =
    evidence_each-Indexes P d labels (Dict.put label (evident d label (Dict.get label known)) known)
      a.1
      (put-Indexes evidence_key P label (evident d label (Dict.get label known)) known a.0
        (evident-label d label (Dict.get label known)) h)

All-values :
    (P : String → Type 0) (d : Dict String CallRevisionLabelEvidence)
    → All (λ x. P x.0) d
    → All (λ x. evidence_key x.1 ≡ x.0) d
    → All (λ e. P (evidence_key e)) (values d)
All-values P [] a k = tt
All-values P ((l, e) ∷ d) a k = (subst P (sym k.0) a.0, All-values P d a.1 k.1)

-- What an earlier diagnostic of the revision contributes.
abbrev Contributes : Option CallRevisionLabelDiagnostic → Type 0
Contributes o =
    All IsCanonical (earlier_labels o)
    × All (λ e. IsCanonical (evidence_key e)) (earlier_evidence o)

diagnostic_at-Contributes :
    (r : ℕ) (xs : List CallRevisionLabelDiagnostic)
    → All IsValidDiagnostic xs
    → Contributes (diagnostic_at r xs)
unfolding diagnostic_at
diagnostic_at-Contributes r [] a = (tt, tt)
diagnostic_at-Contributes r (x ∷ xs) a = elim (Bool-cases (x.transcript_revision == r)) [
  | inl same ↦ rw (same, diagnostic_at) (a.0.newly_known, a.0.evidence_known)
  | inr other ↦ rw (other, diagnostic_at) (diagnostic_at-Contributes r xs a.1)
]

diagnostic_of-IsValid :
    (d : Detection) (active labels newly : List String) (o : Option CallRevisionLabelDiagnostic)
    → Canonical active
    → All IsCanonical labels
    → All IsCanonical newly
    → Contributes o
    → IsValidDiagnostic (diagnostic_of d active labels newly o)
diagnostic_of-IsValid d active labels newly o c l n e =
    let u =
      unique_lem IsCanonical [] (earlier_labels o ++ newly) tt tt
        (All-append IsCanonical (earlier_labels o) newly e.0 n) in
    let v =
      evidence_each-Indexes IsCanonical d labels (index_into evidence_key (earlier_evidence o) []) l
        (index_into-Indexes evidence_key IsCanonical (earlier_evidence o) [] e.1
          (empty-Indexes evidence_key IsCanonical)) in
    record {
      current_known = c.known;
      current_different = c.different;
      newly_known = u.1;
      newly_different = u.0;
      evidence_known = All-values IsCanonical _ v.own v.keyed;
      evidence_different =
          subst AllDifferent (sym (map-values evidence_key _ v.keyed))
            (keys-AllDifferent _ v.distinct);
    }

-- The relation of two diagnostics of different revisions.
abbrev Differ : CallRevisionLabelDiagnostic → CallRevisionLabelDiagnostic → Type 0
Differ x y = x.transcript_revision ≢ y.transcript_revision

Increasing-Apart :
    (xs : List CallRevisionLabelDiagnostic) → Increasing xs → Apart by_revision Differ xs
Increasing-Apart [] h = tt
Increasing-Apart (x ∷ xs) h = (All-map _ _ xs (λ y l e. omega arith) h.0, Increasing-Apart xs h.1)

Apart-Increasing :
    (xs : List CallRevisionLabelDiagnostic)
    → IsSorted by_revision xs
    → Apart by_revision Differ xs
    → Increasing xs
Apart-Increasing [] s a = tt
Apart-Increasing (x ∷ xs) s a = (
  All-map _ _ xs (λ y (b, n). omega (arith, leb-true _ _ b)) (All-zip _ _ _ s.0 a.0),
  Apart-Increasing xs s.1 a.1,
)

others-All :
    (P : CallRevisionLabelDiagnostic → Type 0) (r : ℕ) (xs : List CallRevisionLabelDiagnostic)
    → All P xs
    → All (λ x. P x × (x.transcript_revision ≢ r)) (other_diagnostics r xs)
unfolding other_diagnostics
others-All P r [] a = tt
others-All P r (x ∷ xs) a = elim (Bool-cases (x.transcript_revision == r)) [
  | inl same ↦ rw (same, other_diagnostics) (others-All P r xs a.1)
  | inr other ↦
      rw (other, other_diagnostics)
        ((a.0, λ e. ground (arith, nat_beq_iff x.transcript_revision r)), others-All P r xs a.1)
]

others-Apart :
    (r : ℕ) (xs : List CallRevisionLabelDiagnostic)
    → Apart by_revision Differ xs
    → Apart by_revision Differ (other_diagnostics r xs)
unfolding other_diagnostics
others-Apart r [] a = tt
others-Apart r (x ∷ xs) a = elim (Bool-cases (x.transcript_revision == r)) [
  | inl same ↦ rw (same, other_diagnostics) (others-Apart r xs a.1)
  | inr other ↦
      rw (other, other_diagnostics)
        (All-map _ _ _ (λ y p. p.0) (others-All (Differ x) r xs a.0), others-Apart r xs a.1)
]

Apart-snoc :
    (xs : List CallRevisionLabelDiagnostic) (y : CallRevisionLabelDiagnostic)
    → Apart by_revision Differ xs
    → All (λ x. x.transcript_revision ≢ y.transcript_revision) xs
    → Apart by_revision Differ (xs ++ y ∷ [])
Apart-snoc [] y a b = (tt, tt)
Apart-snoc (x ∷ xs) y a b =
    (All-append (Differ x) xs (y ∷ []) a.0 (b.0, tt), Apart-snoc xs y a.1 b.1)

by_revision-IsPreorder : IsPreorder by_revision
by_revision-IsPreorder = record {
  total = λ x y h. ground (arith, h);
  trans = λ x y z p q. ground (arith, p, q);
}

-- With canonical active labels, canonical incoming and new labels, and a valid timeline, one for each
-- revision in their order, the timeline after the upsert is so again.
pub upsert-Increasing :
    (d : Detection) (labels newly : List String) (s : CallState)
    → Canonical s.active_labels
    → All IsCanonical labels
    → All IsCanonical newly
    → All IsValidDiagnostic s.label_revision_timeline
    → Increasing s.label_revision_timeline
    → let t = upsert_label_revision_diagnostic d labels newly s in
      All IsValidDiagnostic t.label_revision_timeline × Increasing t.label_revision_timeline
unfolding upsert_label_revision_diagnostic
upsert-Increasing d labels newly s c l n v i =
    let r = d.transcript_revision in
    let xs = s.label_revision_timeline in
    let x = diagnostic_of d s.active_labels labels newly (diagnostic_at r xs) in
    let whole = other_diagnostics r xs ++ x ∷ [] in
    let o = others-All IsValidDiagnostic r xs v in
    let x-valid =
      diagnostic_of-IsValid d s.active_labels labels newly (diagnostic_at r xs) c l n
        (diagnostic_at-Contributes r xs v) in
    (
      All-sort by_revision IsValidDiagnostic whole (
          All-append IsValidDiagnostic (other_diagnostics r xs) (x ∷ [])
            (All-map _ _ _ (λ y p. p.0) o) (x-valid, tt)),
      Apart-Increasing (sort by_revision whole)
          (sort-IsSorted by_revision by_revision-IsPreorder whole)
          (sort-Apart by_revision Differ (λ y z p e. p (sym e)) whole
            (Apart-snoc (other_diagnostics r xs) x (others-Apart r xs (Increasing-Apart xs i))
              (All-map _ _ _ (λ y p. p.1) o))),
    )
