-- ===== src/Diarization/IdentityTracker/Assignment.antt =====
-- The identifiers that `_match_speakers` and `_allocate_global_id` (app/diarization/identity_tracker.py) give to the
-- speakers of a window: each speaker has one, no two have the same, and the look-ups of the code find their keys.
use cma_real_time_coaching.Prelude.{
  ℕ, suc, ◌+◌, ◌≤◌, ◌<◌, ◌≡◌, ◌≢◌, refl, sym, subst, ◌∙◌, true, false, Bool-cases, inl, inr, not,
  ◌&&◌, List, [], ◌∷◌, ◌++◌, ◌==◌, list_eq, nat_eq, list_beq_iff, All, All-map, All-append, arith,
  ltb,
}
use cma_real_time_coaching.Prelude.Dict
use cma_real_time_coaching.Prelude.Dict.{Dict, All-put, All-get, contains-get}
use cma_real_time_coaching.Prelude.Sort.{sort, All-sort}
use cma_real_time_coaching.Prelude.Text.{Text}
use cma_real_time_coaching.Diarization.Models.{DiarizationTurn}
use cma_real_time_coaching.Diarization.IdentityTracker.Names.{global_name, global_name-injective}
use cma_real_time_coaching.Diarization.IdentityTracker.{
  pair_eq, TrackedInterval, ProcessedWindow, CallTrackingState, Candidate, Mapping, Identified,
  Totals, or_zero, text_in, overlap_of, add_overlaps, totals_of, intervals_of, candidate_before,
  candidates_of, assign, match_speakers, next_state, allocate_each, identify,
}

-- The identifier was created in the call.
abbrev pub IsCreated : Dict Text ℕ → Text → Type 0
IsCreated created g = Dict.contains g created ≡ true

-- The identifiers that were created are those of the ordinals given so far.
abbrev pub AreNamed : ℕ → Dict Text ℕ → Type 0
AreNamed next created = All (λ x. (x.0 ≡ global_name x.1) × (x.1 < next)) created

-- No value stands twice.
abbrev pub Injective : Mapping → Type 0
Injective [] = Unit
Injective ((l, g) ∷ m) = All (λ x. g ≢ x.1) m × Injective m

put-Injective :
    (l g : Text) (m : Mapping)
    → Dict.contains l m ≡ false
    → All (λ x. x.1 ≢ g) m
    → Injective m
    → Injective (Dict.put l g m)
unfolding Dict.put Dict.contains
put-Injective l g [] c a i = (tt, tt)
put-Injective l g ((k, h) ∷ m) c a i = elim (Bool-cases (k == l)) [
  | inl same ↦ absurd (ground (arith, c, same))
  | inr other ↦
      rw (other, Dict.put)
        (
          All-put (λ x. h ≢ x.1) l g m a.0 (λ j q. a.0) i.0,
          put-Injective l g m (ground (arith, c, other)) a.1 i.1,
        )
]

contains-put :
    (j l g : Text) (m : Mapping)
    → Dict.contains j m ≡ true
    → Dict.contains j (Dict.put l g m) ≡ true
unfolding Dict.put Dict.contains
contains-put j l g [] c = cc
contains-put j l g ((k, h) ∷ m) c = ground (arith, c, contains-put j l g m)

contains-put_same : (l g : Text) (m : Mapping) → Dict.contains l (Dict.put l g m) ≡ true
unfolding Dict.put Dict.contains
contains-put_same l g [] = ground (arith, (list_beq_iff l l).1 refl)
contains-put_same l g ((k, h) ∷ m) = ground (arith, contains-put_same l g m)

created-put :
    (j g : Text) (n : ℕ) (created : Dict Text ℕ)
    → IsCreated created j
    → IsCreated (Dict.put g n created) j
unfolding Dict.put Dict.contains
created-put j g n [] c = cc
created-put j g n ((k, h) ∷ created) c = ground (arith, c, created-put j g n created)

created-put_same : (g : Text) (n : ℕ) (created : Dict Text ℕ) → IsCreated (Dict.put g n created) g
unfolding Dict.put Dict.contains
created-put_same g n [] = ground (arith, (list_beq_iff g g).1 refl)
created-put_same g n ((k, h) ∷ created) = ground (arith, created-put_same g n created)

-- The next identifier is none of those that were created.
fresh :
    (next : ℕ) (created : Dict Text ℕ) (g : Text)
    → AreNamed next created
    → IsCreated created g
    → g ≢ global_name next
fresh next created g a c e =
    let (n, f) = contains-get g created c in
    let (named, low) = All-get (λ x. (x.0 ≡ global_name x.1) × (x.1 < next)) g created n a f in
    let q : n ≡ next = global_name-injective n next (sym named ∙ e) in omega (arith, q, low)

text_in-All : (g : Text) (used : List Text) → text_in g used ≡ false → All (λ t. t ≢ g) used
unfolding text_in
text_in-All g [] e = tt
text_in-All g (t ∷ ts) e =
    ((λ q. ground (arith, e, (list_beq_iff t g).1 q)), text_in-All g ts (ground (arith, e)))

text_in-append : (g : Text) (xs ys : List Text) → text_in g xs ≡ true → text_in g (xs ++ ys) ≡ true
unfolding text_in
text_in-append g [] ys e = cc
text_in-append g (x ∷ xs) ys e = ground (arith, e, text_in-append g xs ys)

text_in-last : (g : Text) (xs : List Text) → text_in g (xs ++ g ∷ []) ≡ true
unfolding text_in
text_in-last g [] = ground (arith, (list_beq_iff g g).1 refl)
text_in-last g (x ∷ xs) = ground (arith, text_in-last g xs)

-- The used identifiers are those of the mapping, which are different and have the property.
record IsAssignment (P : Text → Type 0) (used : List Text) (m : Mapping) : Type 0 where
  pub injective : Injective m
  pub have : All (λ x. P x.1) m
  pub noted : All (λ x. text_in x.1 used ≡ true) m

not_used : (g h : Text) (used : List Text) → text_in g used ≡ false → text_in h used ≡ true → h ≢ g
not_used g h used e f q = ground (arith, e, subst (λ x. text_in x used ≡ true) q f)

assign-IsAssignment :
    (P : Text → Type 0) (cs : List Candidate) (used : List Text) (m : Mapping)
    → All (λ c. P c.global_id) cs
    → IsAssignment P used m
    → Injective (assign cs used m) × All (λ x. P x.1) (assign cs used m)
unfolding assign
assign-IsAssignment P [] used m a h = (h.injective, h.have)
assign-IsAssignment P (c ∷ cs) used m a h =
    elim (Bool-cases (not (Dict.contains c.local_id m) && not (text_in c.global_id used))) [
      | inr refused ↦ rw (refused, assign) (assign-IsAssignment P cs used m a.1 h)
      | inl free ↦
          let unmapped : Dict.contains c.local_id m ≡ false = ground (arith, free) in
          let unused : text_in c.global_id used ≡ false = ground (arith, free) in
          rw (free, assign)
            (assign-IsAssignment P cs (used ++ c.global_id ∷ []) (Dict.put c.local_id c.global_id m)
              a.1
              (record {
                injective =
                    put-Injective c.local_id c.global_id m unmapped
                      (All-map _ _ m (λ x f. not_used c.global_id x.1 used unused f) h.noted)
                      h.injective;
                have = All-put (λ x. P x.1) c.local_id c.global_id m a.0 (λ j q. a.0) h.have;
                noted =
                    All-put (λ x. text_in x.1 (used ++ c.global_id ∷ []) ≡ true) c.local_id
                      c.global_id m (text_in-last c.global_id used)
                      (λ j q. text_in-last c.global_id used)
                      (All-map _ _ m (λ x f. text_in-append x.1 used (c.global_id ∷ []) f) h.noted);
              }))
    ]

module _ (P : Text → Type 0) where
  add_overlaps-All :
      (l : Text) (turns : List DiarizationTurn) (is : List TrackedInterval) (totals : Totals)
      → All (λ i. P i.global_speaker_id) is
      → All (λ x. P x.0.1) totals
      → All (λ x. P x.0.1) (add_overlaps l turns is totals)
  unfolding add_overlaps
  add_overlaps-All l turns [] totals a t = t
  add_overlaps-All l turns (i ∷ is) totals a t = elim (Bool-cases (ltb 0 (overlap_of l turns i))) [
    | inr none_shared ↦ rw (none_shared, add_overlaps) (add_overlaps-All l turns is totals a.1 t)
    | inl shared ↦
        let key : Text × Text = (l, i.global_speaker_id) in
        rw (shared, add_overlaps)
          (add_overlaps-All l turns is
            (Dict.put key (or_zero (Dict.get key totals) + overlap_of l turns i) totals) a.1
            (All-put (λ x. P x.0.1) key (or_zero (Dict.get key totals) + overlap_of l turns i)
              totals a.0 (λ j q. subst (λ z. P z.1) (sym q) a.0) t))
  ]

  totals_of-All :
      (ls : List Text) (turns : List DiarizationTurn) (is : List TrackedInterval) (totals : Totals)
      → All (λ i. P i.global_speaker_id) is
      → All (λ x. P x.0.1) totals
      → All (λ x. P x.0.1) (totals_of ls turns is totals)
  unfolding totals_of
  totals_of-All [] turns is totals a t = t
  totals_of-All (l ∷ ls) turns is totals a t =
      totals_of-All ls turns is (add_overlaps l turns is totals) a
        (add_overlaps-All l turns is totals a t)

  candidates_of-All :
      (created : Dict Text ℕ) (totals : Totals)
      → All (λ x. P x.0.1) totals
      → All (λ c. P c.global_id) (candidates_of created totals)
  unfolding candidates_of
  candidates_of-All created [] t = tt
  candidates_of-All created (((l, g), n) ∷ totals) t = (t.0, candidates_of-All created totals t.1)

  intervals_of-All :
      (ws : List ProcessedWindow)
      → All (λ w. All (λ i. P i.global_speaker_id) w.intervals) ws
      → All (λ i. P i.global_speaker_id) (intervals_of ws)
  unfolding intervals_of
  intervals_of-All [] a = tt
  intervals_of-All (w ∷ ws) a =
      All-append (λ i. P i.global_speaker_id) w.intervals (intervals_of ws) a.0
        (intervals_of-All ws a.1)

-- What holds of the state of a call: its identifiers are those of the ordinals given so far, and the intervals of its
-- windows have such identifiers.
pub record IsTracking (s : CallTrackingState) : Type 0 where
  pub named : AreNamed s.next_global_ordinal s.creation_order
  pub seen :
      All (λ w. All (λ i. IsCreated s.creation_order i.global_speaker_id) w.intervals) s.windows

match_speakers-Injective :
    (ls : List Text) (turns : List DiarizationTurn) (s : CallTrackingState)
    → IsTracking s
    → Injective (match_speakers ls turns s)
      × All (λ x. IsCreated s.creation_order x.1) (match_speakers ls turns s)
unfolding match_speakers
match_speakers-Injective ls turns s h =
    let P = IsCreated s.creation_order in
    let totals = totals_of ls turns (intervals_of s.windows) [] in
    assign-IsAssignment P (sort candidate_before (candidates_of s.creation_order totals)) [] []
      (All-sort candidate_before (λ c. P c.global_id) (candidates_of s.creation_order totals)
        (candidates_of-All P s.creation_order totals (
          totals_of-All P ls turns (intervals_of s.windows) [] (intervals_of-All P s.windows h.seen)
            tt)))
      (record { injective = tt; have = tt; noted = tt })

-- What holds after all speakers `ls` have identifiers.
pub record Assigned (ls : List Text) (s : CallTrackingState) (r : Identified) : Type 0 where
  pub injective : Injective r.mapping
  pub complete : All (λ l. Dict.contains l r.mapping ≡ true) ls
  pub created : All (λ x. IsCreated r.state.creation_order x.1) r.mapping
  pub tracking : IsTracking r.state
  pub same_windows : r.state.windows ≡ s.windows
  pub no_fewer : s.next_global_ordinal ≤ r.state.next_global_ordinal

allocate_each-kept :
    (j : Text) (ls : List Text) (m : Mapping) (s : CallTrackingState)
    → Dict.contains j m ≡ true
    → Dict.contains j (allocate_each ls m s).mapping ≡ true
unfolding allocate_each
allocate_each-kept j [] m s c = c
allocate_each-kept j (l ∷ ls) m s c = elim (Bool-cases (Dict.contains l m)) [
  | inl known ↦ rw (known, allocate_each) (allocate_each-kept j ls m s c)
  | inr new ↦
      rw (new, allocate_each)
        (allocate_each-kept j ls _ _ (contains-put j l (global_name s.next_global_ordinal) m c))
]

next_state-IsTracking : (s : CallTrackingState) → IsTracking s → IsTracking (next_state s)
next_state-IsTracking s h =
    let g = global_name s.next_global_ordinal in
    record {
      named =
          All-put (λ x. (x.0 ≡ global_name x.1) × (x.1 < suc s.next_global_ordinal)) g
            s.next_global_ordinal s.creation_order (refl, omega arith) (λ j q. (q, omega arith))
            (All-map _ _ s.creation_order (λ x a. (a.0, omega (arith, a.1))) h.named);
      seen =
          All-map _ _ s.windows
            (λ w a.
              All-map _ _ w.intervals
                (λ i c. created-put i.global_speaker_id g s.next_global_ordinal s.creation_order c)
                a)
            h.seen;
    }

allocate_each-Assigned :
    (ls : List Text) (m : Mapping) (s : CallTrackingState)
    → Injective m
    → All (λ x. IsCreated s.creation_order x.1) m
    → IsTracking s
    → Assigned ls s (allocate_each ls m s)
unfolding allocate_each
allocate_each-Assigned [] m s i c h = record {
  injective = i;
  complete = tt;
  created = c;
  tracking = h;
  same_windows = refl;
  no_fewer = omega arith;
}
allocate_each-Assigned (l ∷ ls) m s i c h = elim (Bool-cases (Dict.contains l m)) [
  | inl known ↦
      let r = allocate_each-Assigned ls m s i c h in
      rw (known, allocate_each)
        (record {
          injective = r.injective;
          complete = (allocate_each-kept l ls m s known, r.complete);
          created = r.created;
          tracking = r.tracking;
          same_windows = r.same_windows;
          no_fewer = r.no_fewer;
        })
  | inr new ↦
      let g = global_name s.next_global_ordinal in
      let m' = Dict.put l g m in
      let r =
        allocate_each-Assigned ls m' (next_state s)
          (put-Injective l g m new
            (All-map _ _ m (λ x a. fresh s.next_global_ordinal s.creation_order x.1 h.named a) c) i)
          (All-put (λ x. IsCreated (next_state s).creation_order x.1) l g m
            (created-put_same g s.next_global_ordinal s.creation_order)
            (λ j q. created-put_same g s.next_global_ordinal s.creation_order)
            (All-map _ _ m (λ x a. created-put x.1 g s.next_global_ordinal s.creation_order a) c))
          (next_state-IsTracking s h) in
      rw (new, allocate_each)
        (record {
          injective = r.injective;
          complete =
              (allocate_each-kept l ls m' (next_state s) (contains-put_same l g m), r.complete);
          created = r.created;
          tracking = r.tracking;
          same_windows = r.same_windows;
          no_fewer = omega (arith, r.no_fewer);
        })
]

-- For a tracked call, after the identification of the speakers of a window: no two speakers have the same
-- identifier, each of the given speakers has one, all of them were created in the call, the state is tracked again,
-- with the same windows, and no ordinal is given again.
pub identify-Assigned :
    (ls : List Text) (turns : List DiarizationTurn) (s : CallTrackingState)
    → IsTracking s
    → Assigned ls s (identify ls turns s)
unfolding identify
identify-Assigned ls turns s h =
    let (i, c) = match_speakers-Injective ls turns s h in
    allocate_each-Assigned ls (match_speakers ls turns s) s i c h
