-- ===== src/Jobs/Detectors/Laws.antt =====
-- What "Run Analysis" asks for, after any clicks on the detector chips.
use text.Mathlib.Text.{◌==◌ as str_eq}
use text.Mathlib.TextEquality.{eq_iff}
use elastic_ops.Prelude.{
  ℕ, ◌+◌, ◌≤◌, ◌==◌, String, true, false, not, none, some, List, [], ◌∷◌, ◌++◌, ◌≡◌, ◌↔◌, refl,
  arith, if◌then◌else◌, filter, length, length-append, Bool-cases, inl, inr,
}
use elastic_ops.Jobs.Detectors.{
  Detector, over_sharded, under_sharded, segment_fragmentation, shard_imbalance, deleted_docs, key,
  initial_detectors, selected, toggle_detector, toggles, analysis_disabled, analysis_request,
}

count : String → List String → ℕ
count k l = length (filter (λ j. str_eq j k) l)

-- The sum over the detectors.
abbrev each : (Detector → ℕ) → ℕ
each f =
    f over_sharded + f under_sharded + f segment_fragmentation + f shard_imbalance + f deleted_docs

-- Each selected key is a detector's and is selected once.
record Inv (l : List String) : Type 0 where
  total : length l ≡ each (λ d. count (key d) l)
  once : (d : Detector) → count (key d) l ≤ 1

count_append : (k : String) (l r : List String) → count k (l ++ r) ≡ count k l + count k r
unfolding count
count_append k [] r = omega arith
count_append k (j ∷ l) r = ground (arith, count_append k l r)

count_without :
    (k j : String) (l : List String)
    → count j (filter (λ i. not (str_eq i k)) l) ≡ (if str_eq k j then 0 else count j l)
unfolding count
count_without k j [] = ground arith
count_without k j (i ∷ l) = ground (arith, eq_iff i k, eq_iff i j, eq_iff k j, count_without k j l)

length_without :
    (k : String) (l : List String)
    → length (filter (λ i. not (str_eq i k)) l) + count k l ≡ length l
unfolding count
length_without k [] = omega arith
length_without k (i ∷ l) = ground (arith, length_without k l)

selected-count : (k : String) (l : List String) → (selected k l ≡ true) ↔ (1 ≤ count k l)
unfolding count
selected-count k [] = ground arith
selected-count k (i ∷ l) = ground (arith, selected-count k l)

initial_once : (d : Detector) → count (key d) initial_detectors ≤ 1
unfolding initial_detectors count
initial_once over_sharded = omega arith
initial_once under_sharded = omega arith
initial_once segment_fragmentation = omega arith
initial_once shard_imbalance = omega arith
initial_once deleted_docs = omega arith

initial-Inv : Inv initial_detectors
unfolding initial_detectors count
initial-Inv = record { total = refl; once = initial_once }

each_le :
    (f g : Detector → ℕ)
    → ((d : Detector) → f d ≤ g d)
    → each g ≤ each f
    → (d : Detector) → g d ≤ f d
each_le f g h k over_sharded =
    omega (arith, k, h under_sharded, h segment_fragmentation, h shard_imbalance, h deleted_docs)
each_le f g h k under_sharded =
    omega (arith, k, h over_sharded, h segment_fragmentation, h shard_imbalance, h deleted_docs)
each_le f g h k segment_fragmentation =
    omega (arith, k, h over_sharded, h under_sharded, h shard_imbalance, h deleted_docs)
each_le f g h k shard_imbalance =
    omega (arith, k, h over_sharded, h under_sharded, h segment_fragmentation, h deleted_docs)
each_le f g h k deleted_docs =
    omega (arith, k, h over_sharded, h under_sharded, h segment_fragmentation, h shard_imbalance)

each_add : (f g h : Detector → ℕ) → ((d : Detector) → f d ≡ g d + h d) → each f ≡ each g + each h
each_add f g h k = omega (
  arith,
  k over_sharded,
  k under_sharded,
  k segment_fragmentation,
  k shard_imbalance,
  k deleted_docs,
)

-- `n d` for the detector `e` and 0 for the others.
abbrev only : Detector → (Detector → ℕ) → Detector → ℕ
only e n d = if str_eq (key e) (key d) then n d else 0

each-only : (e : Detector) (n : Detector → ℕ) → each (only e n) ≡ n e
each-only over_sharded n = omega arith
each-only under_sharded n = omega arith
each-only segment_fragmentation n = omega arith
each-only shard_imbalance n = omega arith
each-only deleted_docs n = omega arith

module _ (l : List String) (v : Inv l) (e : Detector) where
  abbrev less : List String
  less = filter (λ j. not (str_eq j (key e))) l

  abbrev more : List String
  more = l ++ key e ∷ []

  count-less :
      (d : Detector) → count (key d) l ≡ count (key d) less + only e (λ d. count (key d) l) d
  count-less d = ground (arith, count_without (key e) (key d) l)

  count-more : (d : Detector) → count (key d) more ≡ count (key d) l + only e (λ d. 1) d
  unfolding count
  count-more d = ground (arith, count_append (key d) l (key e ∷ []))

  less-Inv : Inv less
  less-Inv = record {
    total = omega (
      arith,
      v.total,
      length_without (key e) l,
      each_add (λ d. count (key d) l) (λ d. count (key d) less) (only e (λ d. count (key d) l))
          count-less,
      each-only e (λ d. count (key d) l),
    );
    once = λ d. omega (arith, count-less d, v.once d);
  }

  more-Inv : selected (key e) l ≡ false → Inv more
  more-Inv h = record {
    total = omega (
      arith,
      v.total,
      length-append l (key e ∷ []),
      each_add (λ d. count (key d) more) (λ d. count (key d) l) (only e (λ d. 1)) count-more,
      each-only e (λ d. 1),
    );
    once = λ d.
        ground (arith, count-more d, v.once d, selected-count (key e) l, eq_iff (key e) (key d));
  }

toggle_detector-Inv : (l : List String) (e : Detector) → Inv l → Inv (toggle_detector (key e) l)
unfolding toggle_detector
toggle_detector-Inv l e v = elim (Bool-cases (selected (key e) l)) [
  | inl h ↦ rw h (less-Inv l v e)
  | inr h ↦ rw h (more-Inv l v e h)
]

toggles-Inv : (es : List Detector) (l : List String) → Inv l → Inv (toggles es l)
unfolding toggles
toggles-Inv [] l v = v
toggles-Inv (e ∷ es) l v = toggles-Inv es (toggle_detector (key e) l) (toggle_detector-Inv l e v)

count_one : (l : List String) → Inv l → length l ≡ 5 → (d : Detector) → 1 ≤ count (key d) l
count_one l v h = each_le (λ d. count (key d) l) (λ d. 1) v.once (omega (arith, v.total))

request_iff :
    (l : List String)
    → Inv l
    → (analysis_request l ≡ none) ↔ ((d : Detector) → selected (key d) l ≡ true)
unfolding analysis_request
request_iff l v = (
  λ h d. (selected-count (key d) l).1 (count_one l v (ground arith) d),
  λ h.
      let five : length l ≡ 5 = omega (
        arith,
        v.total,
        v.once over_sharded,
        v.once under_sharded,
        v.once segment_fragmentation,
        v.once shard_imbalance,
        v.once deleted_docs,
        (selected-count (key over_sharded) l).0 (h over_sharded),
        (selected-count (key under_sharded) l).0 (h under_sharded),
        (selected-count (key segment_fragmentation) l).0 (h segment_fragmentation),
        (selected-count (key shard_imbalance) l).0 (h shard_imbalance),
        (selected-count (key deleted_docs) l).0 (h deleted_docs),
      ) in
      rw five refl,
)

none_selected : (l : List String) (k : String) → length l ≡ 0 → selected k l ≡ false
none_selected [] k h = refl
none_selected (j ∷ l) k h = absurd (omega arith)

disabled_iff :
    (l : List String)
    → Inv l
    → (analysis_disabled false l ≡ true) ↔ ((d : Detector) → selected (key d) l ≡ false)
unfolding analysis_disabled
disabled_iff l v = (
  λ h d. none_selected l (key d) (ground arith),
  λ h.
      let zero_selected : length l ≡ 0 = ground (
        arith,
        v.total,
        h over_sharded,
        h under_sharded,
        h segment_fragmentation,
        h shard_imbalance,
        h deleted_docs,
        selected-count (key over_sharded) l,
        selected-count (key under_sharded) l,
        selected-count (key segment_fragmentation) l,
        selected-count (key shard_imbalance) l,
        selected-count (key deleted_docs) l,
      ) in
      rw zero_selected refl,
)

names_selected :
    (l : List String)
    → Inv l
    → (analysis_request l ≡ some l) ↔ ¬ ((d : Detector) → selected (key d) l ≡ true)
unfolding analysis_request
names_selected l v = (
  λ h every. let asked = (request_iff l v).1 every in ground arith,
  λ some_missing. elim (Bool-cases (length l == 5)) [
    | inl five ↦ absurd (some_missing ((request_iff l v).0 (rw five)))
    | inr e ↦ rw e
  ],
)

-- However the chips are toggled, "Run Analysis" asks for every detector, by naming none, exactly when
-- each of them is selected, and names the keys that are selected exactly when some detector is not; it is
-- disabled, with no call pending, exactly when none is selected.
pub analysis_request_iff :
    (es : List Detector)
    → ((analysis_request (toggles es initial_detectors) ≡ none)
        ↔ ((d : Detector) → selected (key d) (toggles es initial_detectors) ≡ true))
      × ((analysis_request (toggles es initial_detectors) ≡ some (toggles es initial_detectors))
          ↔ ¬ ((d : Detector) → selected (key d) (toggles es initial_detectors) ≡ true))
      × ((analysis_disabled false (toggles es initial_detectors) ≡ true)
          ↔ ((d : Detector) → selected (key d) (toggles es initial_detectors) ≡ false))
analysis_request_iff es =
    let v = toggles-Inv es initial_detectors initial-Inv in
    (
      request_iff (toggles es initial_detectors) v,
      names_selected (toggles es initial_detectors) v,
      disabled_iff (toggles es initial_detectors) v,
    )
