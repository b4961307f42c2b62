-- ===== src/ShardMap/Pivot/Laws.antt =====
-- Which rows the pivot shows.
use text.Mathlib.Text.{◌==◌ as str_eq}
use text.Mathlib.TextEquality.{eq_iff}
use mathlib.Core.List.{Memᴰ}
use mathlib.Core.List.Memᴰ
use elastic_ops.Prelude.{
  String, true, false, not, List, [], ◌∷◌, ◌++◌, ◌≡◌, ◌↔◌, ◌⊎◌, inl, inr, refl, sym, subst, arith,
  if◌then◌else◌, Bool-cases,
}
use elastic_ops.Prelude.Text.{truthy, includes}
use elastic_ops.Prelude.Locale.{Locale}
use elastic_ops.Api.Es.{PivotData, PivotNode, node, Children, nil, cons, PivotTree}
use elastic_ops.ShardMap.Pivot.{
  node_matches, children_match, is_visible, has, delete, toggle, rows_of, rows_below, pivot_rows,
}

module _ (locale : Locale) (f : String) where
  -- The node or one below it has the text in its key.
  mutual
    pub data HasMatch : PivotNode → Type 0 where
      by_key :
          {d : PivotData} {cs : Children}
          → includes (locale.lower d.key) f ≡ true
          → HasMatch (node d cs)
      by_child : {d : PivotData} {cs : Children} → AnyMatch cs → HasMatch (node d cs)

    pub data AnyMatch : Children → Type 0 where
      first : {c : PivotNode} {cs : Children} → HasMatch c → AnyMatch (cons c cs)
      later : {c : PivotNode} {cs : Children} → AnyMatch cs → AnyMatch (cons c cs)

  module _ (t : truthy f ≡ true) where
    mutual
      unfolding node_matches

      node_sound : (n : PivotNode) → node_matches locale f n ≡ true → HasMatch n
      node_sound (node d cs) h = elim (Bool-cases (includes (locale.lower d.key) f)) [
        | inl e ↦ by_key e
        | inr e ↦ by_child (children_sound cs (rw (t, e) at h))
      ]

      children_sound : (cs : Children) → children_match locale f cs ≡ true → AnyMatch cs
      children_sound nil h = cc
      children_sound (cons c cs) h = elim (Bool-cases (node_matches locale f c)) [
        | inl e ↦ first (node_sound c e)
        | inr e ↦ later (children_sound cs (rw e at h))
      ]

    mutual
      unfolding node_matches

      node_complete : {n : PivotNode} → HasMatch n → node_matches locale f n ≡ true
      node_complete (by_key e) = rw (t, e)
      node_complete (by_child m) = rw (t, children_complete m) (ground arith)

      children_complete : {cs : Children} → AnyMatch cs → children_match locale f cs ≡ true
      children_complete (first m) = rw (node_complete m)
      children_complete (later m) = rw (children_complete m) (ground arith)

-- With a filter text, a node passes exactly when its key or that of a node below it, at any
-- depth, contains the text once the key is put in lower case.
pub node_matches_iff :
    (locale : Locale) (f : String) (n : PivotNode)
    → truthy f ≡ true
    → (node_matches locale f n ≡ true) ↔ HasMatch locale f n
node_matches_iff locale f n t = (node_sound locale f t n, node_complete locale f t)

module _ (locale : Locale) (f : String) (expanded : List String) where
  -- The data of a node that stands among some children, or below one of them that is expanded; every
  -- node on the way passes the filter.
  pub data Shows (k : PivotData) : Children → Type 0 where
    here :
        {ks : Children} {cs : Children}
        → is_visible locale f (node k ks) ≡ true
        → Shows k (cons (node k ks) cs)
    inside :
        {d : PivotData} {ks cs : Children}
        → is_visible locale f (node d ks) ≡ true
        → has d.key expanded ≡ true
        → Shows k ks
        → Shows k (cons (node d ks) cs)
    later : {c : PivotNode} {cs : Children} → Shows k cs → Shows k (cons c cs)

  abbrev Row : PivotData → List PivotData → Type 0
  Row k l = Memᴰ k l

  append_left : {k : PivotData} {l : List PivotData} (r : List PivotData) → Row k l → Row k (l ++ r)
  append_left r (Memᴰ.head e) = Memᴰ.head e
  append_left r (Memᴰ.tail m) = Memᴰ.tail (append_left r m)

  append_right :
      {k : PivotData} (l : List PivotData) {r : List PivotData} → Row k r → Row k (l ++ r)
  append_right [] m = m
  append_right (x ∷ l) m = Memᴰ.tail (append_right l m)

  append_cases :
      {k : PivotData} (l : List PivotData) {r : List PivotData} → Row k (l ++ r) → Row k l ⊎ Row k r
  append_cases [] m = inr m
  append_cases (x ∷ l) (Memᴰ.head e) = inl (Memᴰ.head e)
  append_cases (x ∷ l) (Memᴰ.tail m) = elim (append_cases l m) [
    | inl a ↦ inl (Memᴰ.tail a)
    | inr b ↦ inr b
  ]

  Shows→row : {k : PivotData} {cs : Children} → Shows k cs → Row k (rows_below locale f expanded cs)
  unfolding rows_of
  Shows→row (here v) = rw v (Memᴰ.head refl)
  Shows→row (inside v x s) = rw v (rw x (Memᴰ.tail (append_left _ (Shows→row s))))
  Shows→row (later {c} {cs} s) =
      append_right (if is_visible locale f c then rows_of locale f expanded c else []) (Shows→row s)

  mutual
    unfolding rows_of

    Row-in_node :
        (n : PivotNode) (cs : Children) {k : PivotData}
        → is_visible locale f n ≡ true
        → Row k (rows_of locale f expanded n)
        → Shows k (cons n cs)
    Row-in_node (node d ks) cs v (Memᴰ.head e) =
        subst (λ x. Shows x (cons (node d ks) cs)) (sym e) (here v)
    Row-in_node (node d ks) cs v (Memᴰ.tail m) = elim (Bool-cases (has d.key expanded)) [
      | inl x ↦ inside v x (Row-below ks (rw x at m))
      | inr x ↦ absurd (Memᴰ.not-nil (rw x at m))
    ]

    Row-below :
        (cs : Children) {k : PivotData} → Row k (rows_below locale f expanded cs) → Shows k cs
    Row-below nil m = absurd (Memᴰ.not-nil m)
    Row-below (cons c cs) m =
        elim (append_cases (if is_visible locale f c then rows_of locale f expanded c else []) m) [
          | inl a ↦ elim (Bool-cases (is_visible locale f c)) [
            | inl v ↦ Row-in_node c cs v (rw v at a)
            | inr v ↦ absurd (Memᴰ.not-nil (rw v at a))
          ]
          | inr b ↦ later (Row-below cs b)
        ]

-- A node has a row exactly when it passes the filter and so does every node above it, and all the
-- nodes above it are expanded.
pub pivot_rows_iff :
    (locale : Locale) (text : String) (expanded : List String) (tree : PivotTree) (k : PivotData)
    → Memᴰ k (pivot_rows locale text expanded tree)
      ↔ Shows locale (locale.lower text) expanded k tree.roots
unfolding pivot_rows
pivot_rows_iff locale text expanded tree k = (
  Row-below locale (locale.lower text) expanded tree.roots,
  Shows→row locale (locale.lower text) expanded,
)

has-delete :
    (k j : String) (l : List String) → has j (delete k l) ≡ (if str_eq k j then false else has j l)
unfolding has delete
has-delete k j [] = ground arith
has-delete k j (i ∷ is) = ground (arith, eq_iff i k, eq_iff i j, eq_iff k j, has-delete k j is)

-- A click on a label turns the expansion of its node round and leaves every other node's as it was.
pub has-toggle :
    (k j : String) (expanded : List String)
    → has j (toggle k expanded) ≡ (if str_eq k j then not (has j expanded) else has j expanded)
unfolding toggle
has-toggle k j expanded = ground (arith, has-delete k j expanded, eq_iff k j)
