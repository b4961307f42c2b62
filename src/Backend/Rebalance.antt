-- ===== src/Backend/Rebalance.antt =====
-- backend/services/rebalance.py: the moves that are suggested to even out the shards of the data nodes. A
-- node's entry of the dictionaries is one record, in the order of the data nodes, whose names differ.
pub mod Picks
pub mod Laws
use text.Mathlib.Text.{◌==◌ as str_eq}
use elastic_ops.Prelude.{
  ℕ, zero, suc, ◌+◌, ◌-◌, String, Bool, true, false, not, ◌&&◌, Option, none, some, List, [], ◌∷◌,
  ◌++◌, if◌then◌else◌, filter, length, map, ltb, leb, any,
}
use elastic_ops.Backend.Roles.{is_data_node}

pub record Node : Type 0 where
  pub name : String
  pub role : String

pub record Shard : Type 0 where
  pub index : String
  pub shard : ℕ
  pub state : String
  pub node : String
  pub store : ℕ

-- `available[n]` with the last shard first, `counts[n]` and whether `n` is in `frozen`
pub record Place : Type 0 where
  pub name : String
  pub available : List Shard
  pub count : ℕ
  pub frozen : Bool

pub record Move : Type 0 where
  pub index : String
  pub shard : ℕ
  pub from_node : String
  pub to_node : String
  pub size_bytes : ℕ

-- `s.get("state") == "STARTED"` on this node
abbrev pub is_started_on : String → Shard → Bool
is_started_on name s = str_eq s.state "STARTED" && str_eq s.node name

reversed_onto : List Shard → List Shard → List Shard
reversed_onto [] ys = ys
reversed_onto (x ∷ xs) ys = reversed_onto xs (x ∷ ys)

unfoldable pub place_of : List Shard → String → Place
unfolding reversed_onto
place_of shards name =
    let here = filter (is_started_on name) shards in
    record { name = name; available = reversed_onto here []; count = length here; frozen = false }

abbrev pub is_empty : List Shard → Bool
is_empty [] = true
is_empty (s ∷ ss) = false

abbrev pub is_source : Place → Bool
is_source p = not p.frozen && not (is_empty p.available)

-- `max(…, key=…)`: the first of the greatest.
abbrev pub heavier : Place → Option Place → Place
heavier p none = p
heavier p (some q) = if leb q.count p.count then p else q

unfoldable pub heaviest : List Place → Option Place
heaviest [] = none
heaviest (p ∷ ps) = some (heavier p (heaviest ps))

-- `min(…, key=…)`: the first of the least.
abbrev pub lighter : Place → Option Place → Place
lighter p none = p
lighter p (some q) = if leb p.count q.count then p else q

unfoldable pub lightest : List Place → Option Place
lightest [] = none
lightest (p ∷ ps) = some (lighter p (lightest ps))

-- What a move changes of a node: the source gives a shard, the destination is frozen.
abbrev rest_of : List Shard → List Shard
rest_of [] = []
rest_of (s ∷ ss) = ss

unfoldable pub moved : String → String → Place → Place
moved hi lo p =
    if str_eq p.name hi
    then record p { available = rest_of p.available; count = p.count - 1 }
    else if str_eq p.name lo
    then record p { count = p.count + 1; frozen = true }
    else p

unfoldable pub move_for : Place → Place → Shard → Move
move_for hi lo s = record {
  index = s.index;
  shard = s.shard;
  from_node = hi.name;
  to_node = lo.name;
  size_bytes = s.store;
}

-- One turn of the loop: the move and the nodes after it, or the end.
pub data Turn : Type 0 where
  stops : Turn
  moves : Move → List Place → Turn

unfoldable pub move_of : List Place → Place → Place → List Shard → Turn
unfolding move_for moved
move_of ps hi lo [] = stops
move_of ps hi lo (s ∷ ss) = moves (move_for hi lo s) (map (moved hi.name lo.name) ps)

unfoldable pub turn_with : List Place → Option Place → Option Place → Turn
unfolding move_of
turn_with ps none lo = stops
turn_with ps (some hi) none = stops
turn_with ps (some hi) (some lo) =
    if leb hi.count lo.count then stops else move_of ps hi lo hi.available

unfoldable pub turn : List Place → Turn
unfolding turn_with heaviest lightest
turn ps = turn_with ps (heaviest (filter is_source ps)) (lightest ps)

-- The move of a turn and those of the turns after it.
unfoldable pub follow : (List Place → List Move) → Turn → List Move
follow f stops = []
follow f (moves m rest) = m ∷ f rest

-- The loop, on the number of turns that are left.
unfoldable pub suggest_from : ℕ → List Place → List Move
unfolding turn follow
suggest_from zero ps = []
suggest_from (suc n) ps = follow (suggest_from n) (turn ps)

unfoldable pub data_names : List Node → List String
data_names nodes = map (λ n. n.name) (filter (λ n. is_data_node n.role) nodes)

unfoldable pub suggest_moves : List Node → List Shard → ℕ → List Move
unfolding data_names place_of suggest_from
suggest_moves nodes shards max_moves =
    let names = data_names nodes in
    if ltb (length names) 2 then [] else suggest_from max_moves (map (place_of shards) names)
