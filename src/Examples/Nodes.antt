-- ===== src/Examples/Nodes.antt =====
-- The roles and the suggested moves on concrete nodes.
use elastic_ops.Prelude.{◌≤◌, String, [], List, ◌∷◌, ◌≡◌, refl, length}
use elastic_ops.Backend.Roles.{node_tier, is_data_node}
use elastic_ops.Backend.Rebalance.{Node, Shard, suggest_moves}
use elastic_ops.Backend.Rebalance.Laws.{OneWay, never_undone}
use elastic_ops.Contract.Roles.{in_data_card, data_card_agrees}

data_card_agrees_example : in_data_card (node_tier "his") ≡ is_data_node "his"
data_card_agrees_example = data_card_agrees "his"

abbrev nodes : List Node
nodes = record { name = "a"; role = "d" } ∷ record { name = "b"; role = "d" } ∷ []

abbrev shard : String → String → Shard
shard index node = record { index = index; shard = 0; state = "STARTED"; node = node; store = 5 }

abbrev shards : List Shard
shards = shard "x" "a" ∷ shard "y" "a" ∷ shard "y" "b" ∷ []

-- With counts that differ by one a move is suggested, which leaves them differing by one, to a node that holds a
-- copy of the same shard already.
gap_of_one :
    suggest_moves nodes shards 5
    ≡ record { index = "y"; shard = 0; from_node = "a"; to_node = "b"; size_bytes = 5 } ∷ []
unfolding suggest_moves is_data_node
gap_of_one = refl

never_undone_example :
    OneWay (suggest_moves nodes shards 5) × (length (suggest_moves nodes shards 5) ≤ 5)
never_undone_example = never_undone nodes shards 5
