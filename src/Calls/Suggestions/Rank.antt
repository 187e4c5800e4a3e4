-- ===== src/Calls/Suggestions/Rank.antt =====
-- The rank of a suggestion (`_coaching_rank` of app/calls/models.py), and the order of ranks: that of
-- Python's tuples and texts, which compare at the first place where they differ.
use cma_real_time_coaching.Prelude.{
  ℕ, ◌-◌, ◌≡◌, Bool, true, false, Option, none, some, [], ◌∷◌, map, String, ◌==◌, nat_eq, string_eq,
  ltb, if◌then◌else◌, arith,
}
use cma_real_time_coaching.Prelude.Text.{Text, codes}
use cma_real_time_coaching.Prelude.Sort.{IsPreorder}
use cma_real_time_coaching.Events.Models.{SuggestionPriority}
use cma_real_time_coaching.Calls.Types.{CallCoachingMetadata}

-- `_COACHING_PRIORITY_RANK`
abbrev pub priority_rank : SuggestionPriority → ℕ
priority_rank SuggestionPriority.low = 0
priority_rank SuggestionPriority.medium = 1
priority_rank SuggestionPriority.high = 2
priority_rank SuggestionPriority.critical = 3

-- `_reverse_lexical_key`
abbrev pub reverse_lexical_key : (String → String) → String → Text
reverse_lexical_key casefold value = map (λ c. 1114111 - c) (codes (casefold value))

-- label_id or suggestion_id
abbrev pub label_or : String → Option String → String
label_or identifier none = identifier
label_or identifier (some label) = if label == "" then identifier else label

pub record Rank : Type 0 where
  pub priority : ℕ
  pub revision : ℕ
  pub key : Text

-- `_coaching_rank`
abbrev pub coaching_rank : (String → String) → CallCoachingMetadata → Rank
coaching_rank casefold m = record {
  priority = priority_rank m.priority;
  revision = m.transcript_revision;
  key = reverse_lexical_key casefold (label_or m.suggestion_id m.label_id);
}

-- `<=` of texts
abbrev pub text_le : Text → Text → Bool
text_le [] ys = true
text_le (x ∷ xs) [] = false
text_le (x ∷ xs) (y ∷ ys) = let rest = text_le xs ys in if x == y then rest else ltb x y

-- `<=` of tuples
abbrev pub rank_le : Rank → Rank → Bool
rank_le a b =
    if a.priority == b.priority
    then (if a.revision == b.revision then text_le a.key b.key else ltb a.revision b.revision)
    else ltb a.priority b.priority

-- With `reverse=True` a suggestion may stand before another whose rank is not greater.
abbrev pub ranks_before : (String → String) → CallCoachingMetadata → CallCoachingMetadata → Bool
ranks_before casefold m n = rank_le (coaching_rank casefold n) (coaching_rank casefold m)

text_le_total : (xs ys : Text) → text_le xs ys ≡ false → text_le ys xs ≡ true
text_le_total [] ys h = cc
text_le_total (x ∷ xs) [] h = ground arith
text_le_total (x ∷ xs) (y ∷ ys) h = ground (arith, h, text_le_total xs ys)

text_le_trans :
    (xs ys zs : Text) → text_le xs ys ≡ true → text_le ys zs ≡ true → text_le xs zs ≡ true
text_le_trans [] ys zs h k = ground arith
text_le_trans (x ∷ xs) [] zs h k = cc
text_le_trans (x ∷ xs) (y ∷ ys) [] h k = cc
text_le_trans (x ∷ xs) (y ∷ ys) (z ∷ zs) h k = ground (arith, h, k, text_le_trans xs ys zs)

pub rank_le_total : (a b : Rank) → rank_le a b ≡ false → rank_le b a ≡ true
rank_le_total a b h = ground (arith, h, text_le_total a.key b.key)

pub rank_le_trans : (a b c : Rank) → rank_le a b ≡ true → rank_le b c ≡ true → rank_le a c ≡ true
rank_le_trans a b c h k = ground (arith, h, k, text_le_trans a.key b.key c.key)

pub ranks_before-IsPreorder : (casefold : String → String) → IsPreorder (ranks_before casefold)
ranks_before-IsPreorder casefold = record {
  total = λ x y h. rank_le_total (coaching_rank casefold y) (coaching_rank casefold x) h;
  trans = λ x y z p q.
      rank_le_trans (coaching_rank casefold z) (coaching_rank casefold y) (coaching_rank casefold x)
        q p;
}
