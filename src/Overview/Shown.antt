-- ===== src/Overview/Shown.antt =====
-- What frontend/src/pages/Overview.tsx shows: the metric cards, the disk bars, the storage, the movements,
-- the rows of the unassigned shards and the answer of the explain dialog. `tie_up` decides the decimal ties
-- of `toFixed(1)`; `date_ms` and `now` are the clock; `print` is `JSON.stringify(…, null, 2)`.
use Prim.Native.String.{◌++◌}
use text.Mathlib.Text.{◌==◌ as str_eq}
use elastic_ops.Prelude.{
  ℕ, ◌+◌, ltb, String, Bool, false, Option, none, some, List, [], ◌∷◌, if◌then◌else◌, get_or,
  length, map,
}
use elastic_ops.Prelude.Text.{show, truthy}
use elastic_ops.Format.{format_bytes, format_number, format_since, disk_color, disk_text_color}
use elastic_ops.Api.Json.{Json, property, value}
use elastic_ops.Api.Es.{OverviewData, NodeInfo, RecoveryInfo, StorageGroup, UnassignedShard}
use elastic_ops.Overview.{
  role_breakdown, used_storage, total_storage, col_1_nodes, col_2_nodes, disk_bar_width,
  disk_bar_label, breakdown_width, storage_color, recovery_percent,
}
use elastic_ops.Overview.Unassigned.{explanation}

pub record Card : Type 0 where
  pub label : String
  pub text : String
  pub sub : Option String
  pub accent : String

-- `{sub && …}`
abbrev some_text : String → Option String
some_text s = if truthy s then some s else none

module _ (tie_up : ℕ → ℕ → Bool) (log_floor : ℕ → ℕ) where
  unfoldable pub cards : OverviewData → List Card
  unfolding format_number format_bytes role_breakdown used_storage total_storage
  cards d =
      record {
        label = "Nodes";
        text = show d.health.number_of_nodes;
        sub = some_text (role_breakdown d.node_role_counts);
        accent = "text-eo-cream";
      }
      ∷ record {
        label = "Indices";
        text = format_number tie_up d.index_count;
        sub = none;
        accent = "text-eo-cream";
      }
      ∷ record {
        label = "Shards";
        text = format_number tie_up d.health.active_shards;
        sub = some ("pri: " ++ format_number tie_up d.health.active_primary_shards);
        accent = "text-eo-cream";
      }
      ∷ record {
        label = "Storage";
        text = format_bytes log_floor (used_storage d);
        sub = some ("of " ++ format_bytes log_floor (total_storage d));
        accent = "text-eo-cream";
      }
      ∷ record {
        label = "Relocating";
        text = show d.health.relocating_shards;
        sub = none;
        accent = if ltb 0 d.health.relocating_shards then "text-eo-terracotta" else "text-eo-cream";
      }
      ∷ record {
        label = "Unassigned";
        text = show d.health.unassigned_shards;
        sub = none;
        accent = if ltb 0 d.health.unassigned_shards then "text-eo-brick" else "text-eo-sage";
      }
      ∷ []

-- `NodeDiskBar`
pub record DiskBar : Type 0 where
  pub name : String
  pub bar_color : String
  pub width : ℕ
  pub text_color : String
  pub label : String

unfoldable pub disk_bar : NodeInfo → DiskBar
unfolding disk_color disk_text_color disk_bar_width disk_bar_label
disk_bar n = record {
  name = n.name;
  bar_color = disk_color n.disk_used_percent;
  width = disk_bar_width n.disk_used_percent;
  text_color = disk_text_color n.disk_used_percent;
  label = disk_bar_label n.disk_used_percent;
}

-- The two columns of the disk bars.
unfoldable pub disk_columns : OverviewData → List DiskBar × List DiskBar
unfolding disk_bar col_1_nodes col_2_nodes
disk_columns d = (map disk_bar (col_1_nodes d), map disk_bar (col_2_nodes d))

-- `UnassignedPanel` is shown where the query has rows.
unfoldable pub shows_panel : Option (List UnassignedShard) → Bool
shows_panel none = false
shows_panel (some rows) = ltb 0 (length rows)

-- The page scrolls to the panel when the place it is opened at says so.
unfoldable pub scrolls_to_panel : (hash : String) → Option (List UnassignedShard) → Bool
unfolding shows_panel
scrolls_to_panel hash rows = if str_eq hash "#unassigned-panel" then shows_panel rows else false

pub record Segment : Type 0 where
  pub name : String
  pub color : Option String
  pub width : ℕ × ℕ
  pub size : String

segments_from : (ℕ → ℕ) → OverviewData → ℕ → List StorageGroup → List Segment
unfolding storage_color breakdown_width format_bytes
segments_from log_floor d i [] = []
segments_from log_floor d i (g ∷ gs) =
    record {
      name = g.name;
      color = storage_color i;
      width = breakdown_width d g;
      size = format_bytes log_floor g.size_bytes;
    }
    ∷ segments_from log_floor d (i + 1) gs

-- The bar and its legend, which are left out without groups.
unfoldable pub segments : (ℕ → ℕ) → OverviewData → List Segment
unfolding segments_from
segments log_floor d = segments_from log_floor d 0 d.storage_breakdown

pub record Movement : Type 0 where
  pub index : String
  pub shard : String
  pub from : String
  pub to : String
  pub percent : ℕ
  pub speed : String

unfoldable pub movement : RecoveryInfo → Movement
unfolding recovery_percent
movement r = record {
  index = r.index;
  shard = "[" ++ show r.shard ++ "]";
  from = r.source_node;
  to = r.target_node;
  percent = recovery_percent r;
  speed = r.bytes_percent;
}

unfoldable pub movements : OverviewData → List Movement
unfolding movement
movements d = map movement d.recoveries

unfoldable pub active_label : OverviewData → Option String
active_label d =
    if ltb 0 (length d.recoveries) then some (show (length d.recoveries) ++ " Active") else none

pub record UnassignedRow : Type 0 where
  pub index : String
  pub shard : String
  pub role : String
  pub reason : String
  pub since : String
  pub details : String

module _ (date_ms : String → Option ℕ) (now : ℕ) where
  unfoldable pub unassigned_row : UnassignedShard → UnassignedRow
  unfolding format_since
  unassigned_row r = record {
    index = r.index;
    shard = "[" ++ show r.shard ++ "]";
    role = if str_eq r.prirep "p" then "P" else "R";
    reason = get_or r.reason "-";
    since = format_since date_ms now r.at;
    details = get_or r.details "-";
  }

-- `ExplainDialog`: its title, and what it shows of an answer.
unfoldable pub explain_title : UnassignedShard → String
explain_title r = "Allocation Explain · " ++ r.index ++ "[" ++ show r.shard ++ "]"

pub record Answer : Type 0 where
  pub text : Option String
  pub decisions : Option String
  pub full : String

text_if : Option String → Option String
text_if none = none
text_if (some t) = some_text t

module _ (print : Json → String) where
  decisions_of : Json → Option String
  decisions_of j = elim (property "node_allocation_decisions" j) [
    | value v ↦ some (print v)
    | _ ↦ none
  ]

  unfoldable pub explain_answer : Json → Answer
  unfolding explanation text_if decisions_of
  explain_answer j = record {
    text = text_if (explanation (some j));
    decisions = decisions_of j;
    full = print j;
  }
