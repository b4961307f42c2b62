-- ===== src/Jobs/Detectors.antt =====
-- The detector chips of `RecommendationsTab` in frontend/src/pages/Jobs.tsx, and what "Run Analysis"
-- asks for.
pub mod Laws
use text.Mathlib.Text.{◌==◌ as str_eq}
use text.Mathlib.TextEquality.{eq_iff}
use elastic_ops.Prelude.{
  ℕ, ◌+◌, ◌≤◌, ◌==◌, String, Bool, true, false, not, ◌||◌, Option, none, some, List, [], ◌∷◌, ◌++◌,
  map, ◌≡◌, ◌↔◌, refl, arith, if◌then◌else◌, filter, any, length, length-append, Bool-cases, inl,
  inr,
}

pub data Detector : Type 0 where
  over_sharded under_sharded segment_fragmentation shard_imbalance deleted_docs : Detector

abbrev pub key : Detector → String
key over_sharded = "over-sharded"
key under_sharded = "under-sharded"
key segment_fragmentation = "segment-fragmentation"
key shard_imbalance = "shard-imbalance"
key deleted_docs = "deleted-docs"

abbrev pub detectors : List Detector
detectors =
    over_sharded ∷ under_sharded ∷ segment_fragmentation ∷ shard_imbalance ∷ deleted_docs ∷ []

unfoldable pub initial_detectors : List String
initial_detectors = map key detectors

-- `prev.includes(key)`
abbrev pub selected : String → List String → Bool
selected k l = any (λ j. str_eq j k) l

unfoldable pub toggle_detector : String → List String → List String
toggle_detector k prev =
    if selected k prev then filter (λ j. not (str_eq j k)) prev else prev ++ k ∷ []

-- The chips offer the detectors and nothing else.
unfoldable pub toggles : List Detector → List String → List String
unfolding toggle_detector
toggles [] l = l
toggles (d ∷ ds) l = toggles ds (toggle_detector (key d) l)

-- `disabled` of "Run Analysis".
unfoldable pub analysis_disabled : Bool → List String → Bool
analysis_disabled pending l = pending || length l == 0

-- The argument of `recommend.mutate`; `none` asks for every detector.
unfoldable pub analysis_request : List String → Option (List String)
analysis_request l = if length l == length detectors then none else some l
