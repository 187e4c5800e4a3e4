-- ===== src/Prelude/Text.antt =====
-- Python texts as lists of code points, and the functions of `str` that split and join words. Which
-- code points are white space is a parameter of all of them.
use Prim.Native.Char.{code}
use Prim.Native.String.{String}
use cma_real_time_coaching.Prelude.{
  list_beq, list_beq_iff, ◌||◌, arith, nat_eq, ℕ, ◌≡◌, refl, sym, ap, ◌∙◌, Bool, true, false,
  Bool-cases, inl, inr, List, [], ◌∷◌, ◌++◌, append-nil, append_assoc, if◌then◌else◌, is_empty, All,
}

abbrev pub Text : Type 0
Text = List ℕ

-- " ".join(words)
unfoldable pub join : List Text → Text
join [] = []
join (w ∷ []) = w
join (w ∷ v ∷ ws) = w ++ (b' ' ∷ join (v ∷ ws))

-- part for part in parts if part
unfoldable pub non_empty : List Text → List Text
non_empty [] = []
non_empty ([] ∷ parts) = non_empty parts
non_empty ((c ∷ cs) ∷ parts) = (c ∷ cs) ∷ non_empty parts

module _ (is_space : ℕ → Bool) where
  abbrev pub flush : Text → List Text → List Text
  flush [] ws = ws
  flush (c ∷ w) ws = (c ∷ w) ∷ ws

  -- The words from here on, the first of which has begun with `w`.
  unfoldable pub split_from : Text → Text → List Text
  split_from w [] = flush w []
  split_from w (c ∷ cs) = elim (is_space c) [
    | true ↦ flush w (split_from [] cs)
    | false ↦ split_from (w ++ c ∷ []) cs
  ]

  -- text.split()
  unfoldable pub split : Text → List Text
  unfolding split_from
  split cs = split_from [] cs

  -- " ".join(text.split())
  abbrev pub clean : Text → Text
  clean cs = join (split cs)

  unfoldable pub lstrip : Text → Text
  lstrip [] = []
  lstrip (c ∷ cs) = if is_space c then lstrip cs else c ∷ cs

  -- No white space in the text.
  abbrev pub IsSolid : Text → Type 0
  IsSolid = All (λ c. is_space c ≡ false)

  -- A word: not empty, and solid.
  abbrev pub IsWord : Text → Type 0
  IsWord w = (is_empty w ≡ false) × IsSolid w

  flush-append : (w : Text) (ws vs : List Text) → flush w ws ++ vs ≡ flush w (ws ++ vs)
  flush-append [] ws vs = refl
  flush-append (c ∷ w) ws vs = refl

  module _ (blank : is_space b' ' ≡ true) where
    -- A space ends a word.
    pub split_from-append :
        (w cs ds : Text) → split_from w (cs ++ (b' ' ∷ ds)) ≡ split_from w cs ++ split ds
    unfolding split_from split
    split_from-append w [] ds = rw (blank, split_from) (sym (flush-append w [] (split_from [] ds)))
    split_from-append w (c ∷ cs) ds = elim (Bool-cases (is_space c)) [
      | inl space ↦
          rw (space, split_from)
            (ap (flush w) (split_from-append [] cs ds)
              ∙ sym (flush-append w (split_from [] cs) (split ds)))
      | inr solid ↦ rw (solid, split_from) (split_from-append (w ++ c ∷ []) cs ds)
    ]

    -- Texts joined by a space have the words of both.
    pub split-append : (cs ds : Text) → split (cs ++ (b' ' ∷ ds)) ≡ split cs ++ split ds
    unfolding split
    split-append cs ds = split_from-append [] cs ds

    split_from-IsSolid : (w v : Text) → IsSolid v → split_from w v ≡ flush (w ++ v) []
    unfolding split_from
    split_from-IsSolid w [] h = ap (λ x. flush x []) (sym (append-nil w))
    split_from-IsSolid w (c ∷ v) h =
        rw (h.0, split_from)
          (split_from-IsSolid (w ++ c ∷ []) v h.1
            ∙ ap (λ x. flush x []) (append_assoc w (c ∷ []) v))

    split-IsWord : (w : Text) → IsWord w → split w ≡ w ∷ []
    unfolding split
    split-IsWord [] h = cc
    split-IsWord (c ∷ w) h = split_from-IsSolid [] (c ∷ w) h.1

    -- Splitting a joined list of words gives the words back.
    pub split-join : (ws : List Text) → All IsWord ws → split (join ws) ≡ ws
    unfolding join
    split-join [] a = unfold split split_from in refl
    split-join (w ∷ []) a = split-IsWord w a.0
    split-join (w ∷ v ∷ ws) a =
        split-append w (join (v ∷ ws))
        ∙ ap (λ x. x ++ split (join (v ∷ ws))) (split-IsWord w a.0)
        ∙ ap (◌∷◌ w) (split-join (v ∷ ws) a.1)

  flush-IsWord : (w : Text) (ws : List Text) → IsSolid w → All IsWord ws → All IsWord (flush w ws)
  flush-IsWord [] ws h a = a
  flush-IsWord (c ∷ w) ws h a = ((refl, h), a)

  IsSolid-snoc : (w : Text) (c : ℕ) → IsSolid w → is_space c ≡ false → IsSolid (w ++ c ∷ [])
  IsSolid-snoc [] c h e = (e, tt)
  IsSolid-snoc (d ∷ w) c h e = (h.0, IsSolid-snoc w c h.1 e)

  split_from-IsWord : (w cs : Text) → IsSolid w → All IsWord (split_from w cs)
  unfolding split_from
  split_from-IsWord w [] h = flush-IsWord w [] h tt
  split_from-IsWord w (c ∷ cs) h = elim (Bool-cases (is_space c)) [
    | inl space ↦
        rw (space, split_from) (flush-IsWord w (split_from [] cs) h (split_from-IsWord [] cs tt))
    | inr solid ↦
        rw (solid, split_from) (split_from-IsWord (w ++ c ∷ []) cs (IsSolid-snoc w c h solid))
  ]

  -- What `split` gives are words.
  pub split-IsWord_all : (cs : Text) → All IsWord (split cs)
  unfolding split
  split-IsWord_all cs = split_from-IsWord [] cs tt

  unfoldable pub rstrip : Text → Text
  rstrip [] = []
  rstrip (c ∷ cs) = elim (rstrip cs) [
    | [] ↦ if is_space c then [] else c ∷ []
    | d ∷ ds ↦ c ∷ d ∷ ds
  ]

  -- text.strip()
  abbrev pub strip_text : Text → Text
  strip_text cs = rstrip (lstrip cs)

  -- Space at either end makes no words.
  pub split-lstrip : (cs : Text) → split (lstrip cs) ≡ split cs
  unfolding lstrip split split_from
  split-lstrip [] = refl
  split-lstrip (c ∷ cs) = elim (Bool-cases (is_space c)) [
    | inl space ↦ rw (space, split_from) (split-lstrip cs)
    | inr solid ↦ rw (solid, split_from) (rw (solid, split_from) refl)
  ]

  split_from-rstrip : (w cs : Text) → split_from w (rstrip cs) ≡ split_from w cs
  unfolding rstrip split_from
  split_from-rstrip w [] = refl
  split_from-rstrip w (c ∷ cs) =
      go (rstrip cs) (split_from-rstrip [] cs) (split_from-rstrip (w ++ c ∷ []) cs)
    where
      go :
          (r : Text)
          → split_from [] r ≡ split_from [] cs
          → split_from (w ++ c ∷ []) r ≡ split_from (w ++ c ∷ []) cs
          → split_from w (elim r [ [] ↦ if is_space c then [] else c ∷ [] | d ∷ ds ↦ c ∷ d ∷ ds ])
            ≡ split_from w (c ∷ cs)
      go [] p q = elim (Bool-cases (is_space c)) [
        | inl space ↦ rw (space, split_from) (ap (flush w) p)
        | inr solid ↦ rw (solid, split_from) (rw (solid, split_from) q)
      ]
      go (d ∷ ds) p q = elim (Bool-cases (is_space c)) [
        | inl space ↦ rw (space, split_from) (ap (flush w) p)
        | inr solid ↦ rw (solid, split_from) q
      ]

  pub split-strip_text : (cs : Text) → split (strip_text cs) ≡ split cs
  unfolding split
  split-strip_text cs = split_from-rstrip [] (lstrip cs) ∙ split-lstrip cs

  module _ (blank : is_space b' ' ≡ true) where
    -- Joining the words and splitting again changes nothing.
    pub split-clean : (text : Text) → split (clean text) ≡ split text
    split-clean text = split-join blank (split text) (split-IsWord_all text)

    pub split-nil : split [] ≡ []
    split-nil = unfold split split_from in refl

    pub split-non_empty : (a b : Text) → split (join (non_empty (a ∷ b ∷ []))) ≡ split a ++ split b
    unfolding join non_empty
    split-non_empty [] [] = split-nil ∙ sym (ap (λ x. x ++ split []) split-nil ∙ split-nil)
    split-non_empty [] (c ∷ b) = ap (λ x. x ++ split (c ∷ b)) (sym split-nil)
    split-non_empty (c ∷ a) [] =
        sym (ap (◌++◌ (split (c ∷ a))) split-nil ∙ append-nil (split (c ∷ a)))
    split-non_empty (c ∷ a) (d ∷ b) = split-append blank (c ∷ a) (d ∷ b)

-- text.endswith(suffix)
unfoldable pub ends_with : Text → Text → Bool
ends_with [] suffix = list_beq [] suffix
ends_with (c ∷ cs) suffix = list_beq (c ∷ cs) suffix || ends_with cs suffix

pub ends_with_lem :
    (cs suffix : Text) → ends_with cs suffix ≡ true → (front : Text) × (cs ≡ front ++ suffix)
unfolding ends_with
ends_with_lem [] suffix e = ([], (list_beq_iff [] suffix).0 e)
ends_with_lem (c ∷ cs) suffix e = elim (Bool-cases (list_beq (c ∷ cs) suffix)) [
  | inl whole ↦ ([], (list_beq_iff (c ∷ cs) suffix).0 whole)
  | inr less ↦
      let (front, q) = ends_with_lem cs suffix (ground (arith, less, e)) in
      (c ∷ front, ap (◌∷◌ c) q)
]

-- The code points of a native text.
abbrev pub codes : String → Text
codes String.[] = []
codes (String.◌∷◌ c s) = code c ∷ codes s
