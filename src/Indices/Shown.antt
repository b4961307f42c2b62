-- ===== src/Indices/Shown.antt =====
-- What the panel of frontend/src/pages/Indices.tsx shows of the selected index: its figures, its
-- opportunities and its shards. `tie_up` decides the decimal ties of `toFixed(1)`.
use Prim.Native.String.{◌++◌}
use text.Mathlib.Text.{◌==◌ as str_eq}
use elastic_ops.Prelude.{
  ℕ, ltb, String, Bool, Option, none, some, List, [], ◌∷◌, if◌then◌else◌, get_or, map,
}
use elastic_ops.Prelude.Text.{show}
use elastic_ops.Format.{format_bytes, format_number, health_color}
use elastic_ops.Api.Es.{AnalyzedIndex, Opportunity, ShardInfo}
use elastic_ops.Indices.{
  severity_style, severity_border, opp_type_label, recommendation, segments_class,
}

pub record Head : Type 0 where
  pub dot : String
  pub name : String
  pub status : String

unfoldable pub head : AnalyzedIndex → Head
unfolding health_color
head i = record { dot = health_color i.health; name = i.name; status = i.status }

pub record Card : Type 0 where
  pub border : String
  pub severity : String
  pub severity_class : String
  pub title : String
  pub detail : String
  pub advice : String
  pub wasted : Option String

unfoldable pub card : Opportunity → Card
unfolding severity_style severity_border opp_type_label recommendation
card o = record {
  border = severity_border o.severity;
  severity = o.severity;
  severity_class = severity_style o.severity;
  title = opp_type_label o.type;
  detail = o.detail;
  advice = "Recommendation: " ++ recommendation o;
  wasted = if ltb 0 o.wasted_shards then some (show o.wasted_shards ++ " wasted shards") else none;
}

unfoldable pub cards : AnalyzedIndex → List Card
unfolding card
cards i = map card i.opportunities

pub record ShardRow : Type 0 where
  pub shard : String
  pub role : String
  pub size : String
  pub segments : String
  pub segments_class : String
  pub docs : String
  pub node : String

module _ (tie_up : ℕ → ℕ → Bool) (log_floor : ℕ → ℕ) where
  unfoldable pub mini_metrics : AnalyzedIndex → List (String × String)
  unfolding format_number format_bytes
  mini_metrics i =
      ("Docs", format_number tie_up i.doc_count)
      ∷ ("Size", format_bytes log_floor i.pri_store_bytes)
      ∷ ("Replicas", show i.rep_count)
      ∷ []

  unfoldable pub shard_row : ShardInfo → ShardRow
  unfolding format_number format_bytes segments_class
  shard_row s = record {
    shard = show s.shard;
    role = if str_eq s.prirep "p" then "P" else "R";
    size = format_bytes log_floor s.store;
    segments = show s.segments_count;
    segments_class = segments_class s.segments_count;
    docs = format_number tie_up s.docs;
    node = get_or s.node "-";
  }
