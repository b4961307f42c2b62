-- ===== src/Table.antt =====
-- The sortable tables of frontend/src/pages/Indices.tsx, Jobs.tsx and Nodes.tsx: the header that
-- toggles, and the rows in the chosen direction.
use mathlib.Core.Logic.{ite}
use mathlib.Core.List.{Perm}
use elastic_ops.Prelude.{List, ◌≡◌, Ordering, filter}
use elastic_ops.Prelude.Order.{
  IsConsistent, negate, negate-IsConsistent, is_eq, sort, IsSorted, sort-perm, sort-IsSorted,
  sort-stable,
}

pub data SortDir : Type 0 where
  asc desc : SortDir

abbrev pub flip_dir : SortDir → SortDir
flip_dir asc = desc
flip_dir desc = asc

pub record Sorting (K : Type 0) : Type 0 where
  pub key : K
  pub dir : SortDir

module _ {K : Type 0} (same : Discrete K) where
  -- A click on the active header turns the direction round; on another it starts from the
  -- direction of that column.
  unfoldable pub toggle_sort : (K → SortDir) → K → Sorting K → Sorting K
  toggle_sort first k s =
      ite (same s.key k) (record s { dir = flip_dir s.dir }) (record { key = k; dir = first k })

-- `sortDir === "asc" ? cmp : -cmp`
abbrev pub directed {ℓ} : {A : Type ℓ} → SortDir → (A → A → Ordering) → A → A → Ordering
directed asc cmp a b = cmp a b
directed desc cmp a b = negate (cmp a b)

pub directed-IsConsistent {ℓ} :
    {A : Type ℓ} (d : SortDir) {cmp : A → A → Ordering}
    → IsConsistent cmp
    → IsConsistent (λ a b. directed d cmp a b)
directed-IsConsistent asc ok = ok
directed-IsConsistent desc ok = negate-IsConsistent ok

-- The rows of a table: those of the source list, each as often, in the order of the comparator, and
-- rows that compare equal in the order in which they came.
pub record IsTable {ℓ} {A : Type ℓ} (cmp : A → A → Ordering) (given rows : List A) : Type ℓ where
  pub perm : Perm rows given
  pub sorted : IsSorted cmp rows
  pub stable : (a : A) → filter (λ b. is_eq (cmp a b)) rows ≡ filter (λ b. is_eq (cmp a b)) given

pub sort-IsTable {ℓ} :
    {A : Type ℓ} {cmp : A → A → Ordering}
    → IsConsistent cmp
    → (l : List A) → IsTable cmp l (sort cmp l)
sort-IsTable {cmp} ok l = record {
  perm = sort-perm cmp l;
  sorted = sort-IsSorted cmp ok l;
  stable = λ a. sort-stable cmp ok a l;
}
