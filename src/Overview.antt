-- ===== src/Overview.antt =====
-- frontend/src/pages/Overview.tsx: the figures of the overview. The panel of unassigned shards is a
-- child. Percentages of nodes are hundredths.
pub mod Laws
pub mod Unassigned
pub mod Shown
use Prim.Native.String.{◌++◌}
use elastic_ops.Prelude.{
  ℕ, ◌+◌, ◌*◌, ◌/◌, ◌%◌, ltb, ◌==◌, String, Bool, true, false, not, Option, none, some, List, [],
  ◌∷◌, if◌then◌else◌, get_or, get_elem?, sum_from, length, take, drop, min, compare, Ordering,
}
use elastic_ops.Prelude.Text.{show}
use elastic_ops.Prelude.Order.{sort}
use elastic_ops.Format.{round_quotient}
use elastic_ops.Api.Es.{OverviewData, NodeInfo, NodeRoleCounts, RecoveryInfo, StorageGroup}

abbrev pub storage_colors : List String
storage_colors =
    "bg-eo-amber" ∷ "bg-eo-sage" ∷ "bg-[#C4918E]" ∷ "bg-[#B8835A]" ∷ "bg-[#6B9B9B]"
    ∷ "bg-eo-terracotta" ∷ "bg-eo-brick" ∷ "bg-[#8B7EC8]" ∷ "bg-[#5DADE2]" ∷ "bg-[#A9CCB4]"
    ∷ "bg-eo-muted" ∷ []

-- `STORAGE_COLORS[i % STORAGE_COLORS.length]`, `none` for undefined
unfoldable pub storage_color : ℕ → Option String
storage_color i = get_elem? storage_colors (i % 11)

-- What the page shows before the figures.
pub data Content : Type 0 where
  select_a_cluster query_error loading : Content
  figures : OverviewData → Content

-- `activeCluster`, the snapshot and `isError`
unfoldable pub content : Bool → Option OverviewData → Bool → Content
content false overview is_error = select_a_cluster
content true none is_error = if is_error then query_error else loading
content true (some d) is_error = figures d

unfoldable pub total_storage : OverviewData → ℕ
total_storage d = sum_from 0 (λ n. n.disk_total) d.nodes

unfoldable pub used_storage : OverviewData → ℕ
used_storage d = sum_from 0 (λ n. n.disk_used) d.nodes

role_count : String → ℕ → List String
role_count label n = if ltb 0 n then (label ++ ":" ++ show n) ∷ [] else []

-- `.join(" ")`
join : List String → String
join [] = ""
join (s ∷ []) = s
join (s ∷ t ∷ rest) = s ++ " " ++ join (t ∷ rest)

both : List String → List String → List String
both [] r = r
both (s ∷ l) r = s ∷ both l r

unfoldable pub role_breakdown : NodeRoleCounts → String
unfolding role_count join both
role_breakdown rc = join (
    both (role_count "mstr" rc.master) (
      both (role_count "data" rc.data_count) (
        both (role_count "coord" rc.coord)
          (both (role_count "ingest" rc.ingest) (role_count "other" rc.other)))))

unfoldable pub sorted_nodes : OverviewData → List NodeInfo
sorted_nodes d = sort (λ a b. compare b.disk_used_percent a.disk_used_percent) d.nodes

-- `Math.ceil(n / 2)`
abbrev pub midpoint : List NodeInfo → ℕ
midpoint nodes = (length nodes + 1) / 2

unfoldable pub col_1_nodes : OverviewData → List NodeInfo
unfolding sorted_nodes
col_1_nodes d = take (midpoint (sorted_nodes d)) (sorted_nodes d)

unfoldable pub col_2_nodes : OverviewData → List NodeInfo
unfolding sorted_nodes
col_2_nodes d = drop (midpoint (sorted_nodes d)) (sorted_nodes d)

unfoldable pub total_breakdown_bytes : OverviewData → ℕ
total_breakdown_bytes d = sum_from 0 (λ g. g.size_bytes) d.storage_breakdown

-- The width of a group's bar in percent, as a fraction.
unfoldable pub breakdown_width : OverviewData → StorageGroup → ℕ × ℕ
unfolding total_breakdown_bytes
breakdown_width d g =
    if ltb 0 (total_breakdown_bytes d)
    then (g.size_bytes * 100, total_breakdown_bytes d)
    else (0, 1)

-- `Math.round((r.bytes_recovered / r.bytes_total) * 100)`
unfoldable pub recovery_percent : RecoveryInfo → ℕ
unfolding round_quotient
recovery_percent r =
    if ltb 0 r.bytes_total then round_quotient (100 * r.bytes_recovered) r.bytes_total else 0

-- The bar and the label of `NodeDiskBar`.
unfoldable pub disk_bar_width : ℕ → ℕ
disk_bar_width percent = min percent 10000

unfoldable pub disk_bar_label : ℕ → String
unfolding round_quotient
disk_bar_label percent = show (round_quotient percent 100) ++ "%"
