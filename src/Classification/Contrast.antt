-- ===== src/Classification/Contrast.antt =====
-- The contrast guards of app/classification/postprocessing.py. Texts are lists of code points; case folding, the
-- decomposition NFKD and the classes of code points are parameters.
pub mod Suppressed
use cma_real_time_coaching.Prelude.{
  ℕ, Bool, true, false, not, ◌||◌, Option, none, some, List, [], ◌∷◌, map, String, ◌==◌, string_eq,
  nat_eq, list_beq, if◌then◌else◌, take, length,
}
use cma_real_time_coaching.Prelude.Text.{Text, codes, strip_text}
use cma_real_time_coaching.Prelude.Index.{includes}
use cma_real_time_coaching.Events.Models.{ClassificationLabel, ClassificationResultEvent}
use cma_real_time_coaching.Calls.State.{names_of}
use cma_real_time_coaching.Streaming.TranscriptReconciler.Suffix.{without_marks}

-- What `_normalize_turkish` uses of `str`, `unicodedata` and `re`: `is_word` is `\w` and `is_space` is `\s`.
pub record CharacterMethods : Type 0 where
  pub casefold : Text → Text
  pub nfkd : Text → Text
  pub is_combining : ℕ → Bool
  pub is_word : ℕ → Bool
  pub is_space : ℕ → Bool

abbrev pub price_information_signals : List String
price_information_signals =
    "fiyati ne kadar" ∷ "aylik fiyat" ∷ "ucreti ne" ∷ "ucret secenek" ∷ "fiyat bilgisi" ∷ "kac lira"
    ∷ "paket ucret" ∷ "tarife fiyati" ∷ []

abbrev pub price_objection_signals : List String
price_objection_signals =
    "cok pahali" ∷ "fiyat cok yuksek" ∷ "butcemi asiyor" ∷ "bu ucret fazla" ∷ "odeyemem"
    ∷ "uygun degil" ∷ "bu fiyatla devam etmem" ∷ "indirim yapilmazsa" ∷ "verdigim paraya degmiyor"
    ∷ "ucretiniz cok pahali" ∷ []

-- text.replace("ı", "i")
abbrev pub dotted : Text → Text
dotted = map (λ c. if c == 305 then b'i' else c)

-- Each run of such code points becomes one space; the flag tells whether the text stands in a run.
unfoldable pub sub_runs : (ℕ → Bool) → Bool → Text → Text
sub_runs in_run inside [] = []
sub_runs in_run inside (c ∷ cs) = elim (in_run c) [
  | true ↦ let rest = sub_runs in_run true cs in if inside then rest else b' ' ∷ rest
  | false ↦ c ∷ sub_runs in_run false cs
]

-- `_normalize_turkish`
unfoldable pub normalize_turkish : CharacterMethods → Text → Text
unfolding sub_runs
normalize_turkish m text =
    let without = without_marks m.is_combining (m.nfkd (dotted (m.casefold text))) in
    strip_text m.is_space
      (sub_runs m.is_space false (sub_runs (λ c. not (m.is_word c)) false without))

-- signal in text
unfoldable pub occurs : Text → Text → Bool
occurs signal [] = list_beq signal []
occurs signal (c ∷ cs) = list_beq signal (take (length signal) (c ∷ cs)) || occurs signal cs

-- any(signal in text for signal in signals)
unfoldable pub any_signal : List String → Text → Bool
unfolding occurs
any_signal [] text = false
any_signal (signal ∷ signals) text = occurs (codes signal) text || any_signal signals text

pub record ClassificationPostProcessingMetadata : Type 0 where
  pub applied_guards : List String
  pub suppressed_labels : List String

pub record Guarded : Type 0 where
  pub result : ClassificationResultEvent
  pub metadata : ClassificationPostProcessingMetadata

-- [label for label in labels if label.name != name]
unfoldable pub other_labels : String → List ClassificationLabel → List ClassificationLabel
other_labels name [] = []
other_labels name (l ∷ ls) =
    let rest = other_labels name ls in if not (l.name == name) then l ∷ rest else rest

-- `apply_classification_contrast_guards`
unfoldable pub apply_classification_contrast_guards :
    CharacterMethods → Text → ClassificationResultEvent → Guarded
unfolding normalize_turkish any_signal includes other_labels
apply_classification_contrast_guards m text result =
    let normalized = normalize_turkish m text in
    let price_query = any_signal price_information_signals normalized in
    let price_objection = any_signal price_objection_signals normalized in
    if not (includes "price_objection" (names_of result.labels))
      || not price_query
      || price_objection
    then record {
      result = result;
      metadata = record { applied_guards = []; suppressed_labels = [] };
    }
    else record {
      result = record result { labels = other_labels "price_objection" result.labels };
      metadata = record {
        applied_guards = "turkish_price_query_vs_objection" ∷ [];
        suppressed_labels = "price_objection" ∷ [];
      };
    }
