-- ===== src/Api/Storage.antt =====
-- `localStorage`: texts under keys.
use text.Mathlib.Text.{◌==◌}
use text.Mathlib.TextEquality.{eq_iff}
use text.Mathlib.TextPositions.{eq_refl}
use elastic_ops.Prelude.{String, Option, none, some, List, [], ◌∷◌, ◌≡◌, refl, arith, if◌then◌else◌}

abbrev pub Storage : Type 0
Storage = List (String × String)

unfoldable pub get_item : String → Storage → Option String
get_item k [] = none
get_item k ((j, v) ∷ s) = if j == k then some v else get_item k s

unfoldable pub set_item : String → String → Storage → Storage
set_item k v [] = (k, v) ∷ []
set_item k v ((j, w) ∷ s) = if j == k then (k, v) ∷ s else (j, w) ∷ set_item k v s

unfoldable pub remove_item : String → Storage → Storage
remove_item k [] = []
remove_item k ((j, v) ∷ s) = if j == k then remove_item k s else (j, v) ∷ remove_item k s

pub get_item-set_item :
    (k j v : String) (s : Storage)
    → get_item j (set_item k v s) ≡ (if k == j then some v else get_item j s)
unfolding get_item set_item
get_item-set_item k j v [] = refl
get_item-set_item k j v ((i, w) ∷ s) =
    ground (arith, eq_iff k j, eq_iff i k, eq_iff i j, get_item-set_item k j v s)

pub get_item-remove_item :
    (k j : String) (s : Storage)
    → get_item j (remove_item k s) ≡ (if k == j then none else get_item j s)
unfolding get_item remove_item
get_item-remove_item k j [] = ground arith
get_item-remove_item k j ((i, w) ∷ s) =
    ground (arith, eq_iff k j, eq_iff i k, eq_iff i j, get_item-remove_item k j s)

pub get_item-set_item_self : (k v : String) (s : Storage) → get_item k (set_item k v s) ≡ some v
get_item-set_item_self k v s = simp (get_item-set_item, eq_refl)

pub get_item-remove_item_self : (k : String) (s : Storage) → get_item k (remove_item k s) ≡ none
get_item-remove_item_self k s = simp (get_item-remove_item, eq_refl)
