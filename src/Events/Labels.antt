-- ===== src/Events/Labels.antt =====
-- app/events/labels.py: business labels brought to their canonical names. `str.strip` and
-- `str.casefold` are parameters; the set `seen` always holds the labels of `result`, and is that list.
pub mod Canonical
use cma_real_time_coaching.Prelude.{
  Bool, true, false, not, ◌&&◌, ◌||◌, Option, none, some, List, [], ◌∷◌, ◌++◌, String, ◌==◌,
  if◌then◌else◌, string_eq,
}
use cma_real_time_coaching.Prelude.Dict
use cma_real_time_coaching.Prelude.Index.{includes}
use cma_real_time_coaching.Prelude.Dict.{Dict}

abbrev pub canonical_names : List String
canonical_names =
    "product_information" ∷ "price_objection" ∷ "cancellation_request" ∷ "technical_issue"
    ∷ "complaint" ∷ "renewal_interest" ∷ "churn_risk" ∷ "no_action" ∷ []

abbrev pub label_aliases : Dict String String
label_aliases =
    ("urun_bilgisi", "product_information")
    ∷ ("paket_sorusu", "product_information")
    ∷ ("fiyat_itirazi", "price_objection")
    ∷ ("butce_endisesi", "price_objection")
    ∷ ("iptal_riski", "cancellation_request")
    ∷ ("ayrilma_talebi", "cancellation_request")
    ∷ []

unfoldable pub canonical_label : (String → String) → (String → String) → String → Option String
unfolding includes
canonical_label strip casefold label =
    let cleaned = strip label in
    if includes cleaned canonical_names
    then some cleaned
    else Dict.get (casefold cleaned) label_aliases

-- The loop of `canonical_labels`, with what it has collected.
unfoldable pub collect : (String → Option String) → List String → List String → List String
collect normalize result [] = result
collect normalize result (label ∷ labels) = elim (normalize label) [
  | none ↦ collect normalize result labels
  | some normalized ↦ elim (includes normalized result) [
    | true ↦ collect normalize result labels
    | false ↦ collect normalize (result ++ normalized ∷ []) labels
  ]
]

-- `any(label != "no_action" for label in result)`
unfoldable pub any_action : List String → Bool
any_action [] = false
any_action (l ∷ ls) = not (l == "no_action") || any_action ls

-- `[label for label in result if label != "no_action"]`
unfoldable pub only_actions : List String → List String
only_actions [] = []
only_actions (l ∷ ls) =
    let rest = only_actions ls in if not (l == "no_action") then l ∷ rest else rest

unfoldable pub canonical_labels : (String → String) → (String → String) → List String → List String
unfolding canonical_label collect any_action only_actions
canonical_labels strip casefold labels =
    let result = collect (canonical_label strip casefold) [] labels in
    if any_action result then only_actions result else result
