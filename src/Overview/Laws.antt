-- ===== src/Overview/Laws.antt =====
-- The two columns of disk bars.

use elastic_ops.Prelude.{
  ◌+◌, ◌++◌, ◌≡◌, ◌⊎◌, arith, length, take-append-drop, length-take, length-drop, compare,
}
use elastic_ops.Prelude.Order.{IsConsistent}
use elastic_ops.Table.{IsTable, sort-IsTable}
use elastic_ops.Api.Es.{OverviewData, NodeInfo}
use elastic_ops.Overview.{sorted_nodes, col_1_nodes, col_2_nodes, midpoint}

by_usage-IsConsistent :
    IsConsistent (λ (a b : NodeInfo). compare b.disk_used_percent a.disk_used_percent)
by_usage-IsConsistent = record { flip = λ a b. ground arith; trans = λ a b c p q. ground arith }

sorted_by_usage :
    (d : OverviewData)
    → IsTable (λ a b. compare b.disk_used_percent a.disk_used_percent) d.nodes (sorted_nodes d)
unfolding sorted_nodes
sorted_by_usage d = sort-IsTable by_usage-IsConsistent d.nodes

-- The first column and after it the second are the nodes of the snapshot by falling disk usage, ties
-- as they came, and the first column is as long as the second or longer by one.
pub columns_balanced :
    (d : OverviewData)
    → IsTable
        (λ a b. compare b.disk_used_percent a.disk_used_percent)
        d.nodes
        (col_1_nodes d ++ col_2_nodes d)
      × ((length (col_1_nodes d) ≡ length (col_2_nodes d))
          ⊎ (length (col_1_nodes d) ≡ length (col_2_nodes d) + 1))
unfolding col_1_nodes col_2_nodes
columns_balanced d = (
  rw (take-append-drop (midpoint (sorted_nodes d)) (sorted_nodes d)) (sorted_by_usage d),
  ground (
    arith,
    length-take (midpoint (sorted_nodes d)) (sorted_nodes d),
    length-drop (midpoint (sorted_nodes d)) (sorted_nodes d),
  ),
)
