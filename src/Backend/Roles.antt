-- ===== src/Backend/Roles.antt =====
-- backend/services/role_logic.py: the roles of a node, by the letters that Elasticsearch reports.
use text.Mathlib.Text.{◌==◌ as str_eq}
use elastic_ops.Prelude.{ℕ, ◌+◌, String, Bool, false, ◌||◌, List, [], ◌∷◌, if◌then◌else◌, any}
use elastic_ops.Prelude.Text.{includes}

abbrev pub is_coord : String → Bool
is_coord role = str_eq role "coord" || str_eq role "-" || str_eq role ""

abbrev pub data_tier_letters : List String
data_tier_letters = "d" ∷ "h" ∷ "w" ∷ "c" ∷ "s" ∷ []

unfoldable pub is_data_node : String → Bool
is_data_node role =
    if is_coord role then false else any (λ letter. includes role letter) data_tier_letters

unfoldable pub node_tier : String → String
node_tier role =
    if is_coord role
    then "coord"
    else if str_eq role "m"
    then "master"
    else if includes role "h"
    then "hot"
    else if includes role "w"
    then "warm"
    else if includes role "c"
    then "cold"
    else if includes role "d" || includes role "s"
    then "data"
    else role

pub record Counts : Type 0 where
  pub master : ℕ
  pub data_count : ℕ
  pub coord : ℕ
  pub ingest : ℕ
  pub other : ℕ

-- One turn of the loop of `role_counts`.
unfoldable pub count_role : String → Counts → Counts
unfolding is_data_node
count_role role c =
    if is_coord role
    then record c { coord = c.coord + 1 }
    else if is_data_node role
    then record c { data_count = c.data_count + 1 }
    else if includes role "m"
    then record c { master = c.master + 1 }
    else if includes role "i"
    then record c { ingest = c.ingest + 1 }
    else record c { other = c.other + 1 }

unfoldable pub count_from : Counts → List String → Counts
unfolding count_role
count_from c [] = c
count_from c (role ∷ roles) = count_from (count_role role c) roles

unfoldable pub role_counts : List String → Counts
unfolding count_from
role_counts roles =
    count_from (record { master = 0; data_count = 0; coord = 0; ingest = 0; other = 0 }) roles
