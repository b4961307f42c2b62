-- ===== src/Backend/Drain.antt =====
-- backend/services/drain.py: whether a node may be drained.
use Prim.Native.String.{◌++◌}
use text.Mathlib.Text.{◌==◌ as str_eq}
use elastic_ops.Prelude.{
  ℕ, ◌+◌, ◌-◌, String, Bool, true, false, not, ◌&&◌, List, if◌then◌else◌, filter, length, ltb, leb,
  sum_from,
}
use elastic_ops.Prelude.Text.{show}
use elastic_ops.Backend.Roles.{is_data_node}

pub record Disk : Type 0 where
  pub name : String
  pub role : String
  pub total : ℕ
  pub used : ℕ

pub record Stored : Type 0 where
  pub node : String
  pub store : ℕ

unfoldable pub others : String → List Disk → List Disk
unfolding is_data_node
others node_name nodes = filter (λ n. not (str_eq n.name node_name) && is_data_node n.role) nodes

unfoldable pub bytes_on : String → List Stored → ℕ
bytes_on node_name shards = sum_from 0 (λ s. s.store) (filter (λ s. str_eq s.node node_name) shards)

abbrev pub total_of : List Disk → ℕ
total_of nodes = sum_from 0 (λ n. n.total) nodes

abbrev pub used_of : List Disk → ℕ
used_of nodes = sum_from 0 (λ n. n.used) nodes

-- The difference of two sums as an integer prints.
difference : ℕ → ℕ → String
difference m n = if leb n m then show (m - n) else "-" ++ show (n - m)

-- `on_node > free_elsewhere`, where the free bytes are a difference of integers.
unfoldable pub preflight : String → List Disk → List Stored → Bool × String
unfolding others bytes_on difference
preflight node_name nodes shards =
    let rest = others node_name nodes in
    let on_node = bytes_on node_name shards in
    if ltb (length rest) 2
    then (
      false,
      "Cannot drain '"
          ++ node_name
          ++ "': need >=2 other data nodes to relocate to, found "
          ++ show (length rest)
          ++ ".",
    )
    else if ltb (total_of rest) (on_node + used_of rest)
    then (
      false,
      "Cannot drain '"
          ++ node_name
          ++ "': needs "
          ++ show on_node
          ++ "B but only "
          ++ difference (total_of rest) (used_of rest)
          ++ "B free on other data nodes.",
    )
    else (true, "ok")
