-- ===== src/Events/Tests.antt =====
-- A run of app/events/labels.py on a few labels, already stripped and in lower case.
use cma_real_time_coaching.Prelude.{◌≡◌, refl, List, [], ◌∷◌, String}
use cma_real_time_coaching.Prelude.Dict
use cma_real_time_coaching.Prelude.Index
use cma_real_time_coaching.Events.Labels
use cma_real_time_coaching.Events.Labels.{canonical_labels}
use cma_real_time_coaching.Events.Labels.Canonical.{Canonical, canonical_labels-Canonical}

abbrev as_it_is : String → String
as_it_is s = s

abbrev labels : List String
labels = "iptal_riski" ∷ "no_action" ∷ "complaint" ∷ "cancellation_request" ∷ "unknown" ∷ []

labels_lem : canonical_labels as_it_is as_it_is labels ≡ "cancellation_request" ∷ "complaint" ∷ []
unfolding canonical_labels Labels.canonical_label Labels.collect Index.includes Labels.any_action
    Labels.only_actions Dict.get
labels_lem = refl

canonical_labels-Canonical_example : Canonical (canonical_labels as_it_is as_it_is labels)
canonical_labels-Canonical_example = canonical_labels-Canonical as_it_is as_it_is labels
