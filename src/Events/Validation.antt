-- ===== src/Events/Validation.antt =====
-- app/events/validation.py. The objects are given by the values of their attribute; all of them have it,
-- as text.
use cma_real_time_coaching.Prelude.{
  Bool, true, false, ◌&&◌, ◌||◌, Option, none, some, List, [], ◌∷◌, String, ◌==◌, string_eq,
  if◌then◌else◌,
}

-- not value.strip()
abbrev pub any_blank : (String → String) → List String → Bool
any_blank strip [] = false
any_blank strip (s ∷ ss) = strip s == "" || any_blank strip ss

-- len(set(identifiers)) == 1, of a list that begins with `s`
abbrev pub all_equal : String → List String → Bool
all_equal s [] = true
all_equal s (r ∷ rs) = r == s && all_equal s rs

-- `_ensure_same_identifier`: `none` is a `ValueError`.
unfoldable pub ensure_same_identifier : (String → String) → List String → Option String
ensure_same_identifier strip [] = none
ensure_same_identifier strip (s ∷ ss) =
    if any_blank strip (s ∷ ss) then none else if all_equal s ss then some s else none
