-- ===== src/ShardMap/Cells.antt =====
-- The keys of the grid's cells, and what a chip selects.
use Prim.Native.Char.{Char, code}
use Prim.Native.String.{◌++◌}
use text.Mathlib.TextLemmas.{nil-append, cons-append, head-eq_of_cons-eq, tail-eq_of_cons-eq}
use mathlib.Core.Path.{ap₂}
use text.Mathlib.Text.{◌==◌ as str_eq}
use text.Mathlib.TextEquality.{eq_iff}
use elastic_ops.Prelude.{
  ◌==◌, String, Bool, false, ◌&&◌, ◌||◌, ◌≡◌, refl, sym, ap, ◌∙◌, arith, List, [], ◌∷◌, some, none,
  Option, get_or, if◌then◌else◌, All, inl, inr, Bool-cases,
}
use elastic_ops.Api.Es.{ShardCell, ShardMapGrid, ShardMapRow, ShardMapColumn}
use elastic_ops.ShardMap.{cell_key, find_cell, cell_shards}

abbrev pub has_space : String → Bool
has_space String.[] = false
has_space (String.◌∷◌ c s) = code c == 32 || has_space s

space : Char
space = " "

split :
    (s t : String) (u v : String)
    → has_space s ≡ false
    → has_space t ≡ false
    → s ++ String.◌∷◌ " " u ≡ t ++ String.◌∷◌ " " v
    → (s ≡ t) × (u ≡ v)
split String.[] String.[] u v h k e =
    (refl, tail-eq_of_cons-eq (sym (nil-append _) ∙ e ∙ nil-append _))
split String.[] (String.◌∷◌ d t) u v h k e =
    let q = head-eq_of_cons-eq (sym (nil-append _) ∙ e ∙ cons-append d t _) in
    let p : code d ≡ 32 = sym (ap code q) in absurd (ground arith)
split (String.◌∷◌ c s) String.[] u v h k e =
    let q = head-eq_of_cons-eq (sym (nil-append _) ∙ sym e ∙ cons-append c s _) in
    let p : code c ≡ 32 = sym (ap code q) in absurd (ground arith)
split (String.◌∷◌ c s) (String.◌∷◌ d t) u v h k e =
    let q = sym (cons-append c s _) ∙ e ∙ cons-append d t _ in
    let (p, r) = split s t u v (ground arith) (ground arith) (tail-eq_of_cons-eq q) in
    (ap₂ String.◌∷◌ (head-eq_of_cons-eq q) p, r)

after_space : (t : String) → " " ++ t ≡ String.◌∷◌ " " t
after_space t = cons-append " " String.[] t ∙ ap (String.◌∷◌ " ") (nil-append t)

cell_key_inj :
    (i j m n : String)
    → has_space i ≡ false
    → has_space j ≡ false
    → cell_key i m ≡ cell_key j n
    → (i ≡ j) × (m ≡ n)
unfolding cell_key
cell_key_inj i j m n h k e =
    split i j m n h k (ap (◌++◌ i) (sym (after_space m)) ∙ e ∙ ap (◌++◌ j) (after_space n))

cell_key_test :
    (i j m n : String)
    → has_space i ≡ false
    → has_space j ≡ false
    → str_eq (cell_key i m) (cell_key j n) ≡ str_eq i j && str_eq m n
cell_key_test i j m n h k = elim (Bool-cases (str_eq (cell_key i m) (cell_key j n))) [
  | inl e ↦
      let (p, q) = cell_key_inj i j m n h k ((eq_iff _ _).0 e) in
      rw (e, (eq_iff i j).1 p, (eq_iff m n).1 q)
  | inr e ↦ elim (Bool-cases (str_eq i j && str_eq m n)) [
    | inl f ↦
        let p : i ≡ j = ground (arith, eq_iff i j) in
        let q : m ≡ n = ground (arith, eq_iff m n) in
        let r = (eq_iff (cell_key i m) (cell_key j n)).1 (ap₂ cell_key p q) in cc
    | inr f ↦ e ∙ sym f
  ]
]

-- The cells as `build_shardmap` of backend/services/snapshot_service.py collects them: a list of shards for
-- each index and node, under the key that it writes.
abbrev pub Group : Type 0
Group = String × String × List ShardCell

abbrev pub group_key : String → String → String
group_key index owner = index ++ " " ++ owner

abbrev pub keyed : List Group → List (String × List ShardCell)
keyed [] = []
keyed ((i, n, c) ∷ rest) = (group_key i n, c) ∷ keyed rest

abbrev pub find_group : String → String → List Group → Option (List ShardCell)
find_group i n [] = none
find_group i n ((j, m, c) ∷ rest) = if str_eq j i && str_eq m n then some c else find_group i n rest

find_cell-keyed :
    (i n : String) (groups : List Group)
    → has_space i ≡ false
    → All (λ g. has_space g.0 ≡ false) groups
    → find_cell (cell_key i n) (keyed groups) ≡ find_group i n groups
unfolding find_cell cell_key
find_cell-keyed i n [] h k = refl
find_cell-keyed i n ((j, m, c) ∷ rest) h k =
    rw (cell_key_test j i m n k.0 h)
      (ap (λ o. if str_eq j i && str_eq m n then some c else o) (find_cell-keyed i n rest h k.1))

-- The page builds the keys that the backend writes; and as index names hold no space, joining the index and
-- the node with a space loses nothing: a cell of the grid shows the shards that the backend has put under its
-- index and its node, and none where there are none.
pub cell_shards_by_group :
    (g : ShardMapGrid) (idx : ShardMapRow) (node : ShardMapColumn) (groups : List Group)
    → g.cells ≡ keyed groups
    → has_space idx.index ≡ false
    → All (λ e. has_space e.0 ≡ false) groups
    → cell_shards g idx node ≡ get_or (find_group idx.index node.name groups) []
unfolding cell_shards
cell_shards_by_group g idx node groups e h k =
    rw e (ap (λ o. get_or o []) (find_cell-keyed idx.index node.name groups h k))
