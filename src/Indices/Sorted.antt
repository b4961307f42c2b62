-- ===== src/Indices/Sorted.antt =====
-- The rows of the index table, column by column.

use mathlib.Core.List.{Perm}
use elastic_ops.Prelude.{
  ℕ, ◌≤◌, ◌==◌, Bool, ◌&&◌, ◌||◌, ap, sym, ◌∙◌, subst, Ordering, compare, All, false, not, List, [],
  ◌∷◌, ◌≡◌, refl, arith, filter,
}
use elastic_ops.Prelude.Text.{starts_with, truthy, includes}
use elastic_ops.Prelude.Order.{IsSorted, is_gt, is_eq, IsConsistent, by_number-IsConsistent, negate}
use elastic_ops.Prelude.Locale.{Locale, collate_by-IsConsistent}
use elastic_ops.Api.Es.{AnalyzedIndex}
use elastic_ops.Table.{SortDir, asc, desc, directed, directed-IsConsistent, sort-IsTable}
use elastic_ops.Indices.{
  SortKey, name, pri, rep, docs, size, avg_shard, max_seg, issues, Page, filtered_indices,
  compare_by, sorted_indices,
}

le_of_not_gt : (m n : ℕ) → is_gt (compare m n) ≡ false → m ≤ n
le_of_not_gt m n h = ground arith

is_eq-compare : (m n : ℕ) → is_eq (compare m n) ≡ m == n
is_eq-compare m n = ground arith

is_eq-negate : (o : Ordering) → is_eq (negate o) ≡ is_eq o
is_eq-negate Ordering.lt = refl
is_eq-negate Ordering.eq = refl
is_eq-negate Ordering.gt = refl

All-map {ℓ} :
    {A : Type ℓ} {P Q : A → Type 0} → ((a : A) → P a → Q a) → (l : List A) → All P l → All Q l
All-map f [] h = tt
All-map f (a ∷ l) h = (f a h.0, All-map f l h.1)

filter_ext {ℓ} :
    {A : Type ℓ} {p q : A → Bool} → ((a : A) → p a ≡ q a) → (l : List A) → filter p l ≡ filter q l
filter_ext h [] = refl
filter_ext {p} {q} h (a ∷ l) = rw (h a, filter_ext h l) refl

module _ (locale : Locale) where
  compare_by-IsConsistent : (k : SortKey) → IsConsistent (λ a b. compare_by locale k a b)
  unfolding compare_by
  compare_by-IsConsistent name = collate_by-IsConsistent locale (λ i. i.name)
  compare_by-IsConsistent pri = by_number-IsConsistent (λ i. i.pri_count)
  compare_by-IsConsistent rep = by_number-IsConsistent (λ i. i.rep_count)
  compare_by-IsConsistent docs = by_number-IsConsistent (λ i. i.doc_count)
  compare_by-IsConsistent size = by_number-IsConsistent (λ i. i.pri_store_bytes)
  compare_by-IsConsistent avg_shard = by_number-IsConsistent (λ i. i.avg_shard_size_gb)
  compare_by-IsConsistent max_seg = by_number-IsConsistent (λ i. i.max_segments_per_shard)
  compare_by-IsConsistent issues = by_number-IsConsistent (λ i. i.opportunity_count)

  -- What a row has to pass: a system index only where these are shown, and a name with the text in it, without
  -- regard to case, where there is one.
  abbrev pub passes : Page → AnalyzedIndex → Bool
  passes p i =
      (p.show_system || not (starts_with i.name "."))
      && (not (truthy p.filter_text) || includes (locale.lower i.name) (locale.lower p.filter_text))

  -- The columns: what may stand above what in ascending order, and what counts as equal.
  abbrev pub AtMost : SortKey → AnalyzedIndex → AnalyzedIndex → Type 0
  AtMost name a b = is_gt (locale.collate a.name b.name) ≡ false
  AtMost pri a b = a.pri_count ≤ b.pri_count
  AtMost rep a b = a.rep_count ≤ b.rep_count
  AtMost docs a b = a.doc_count ≤ b.doc_count
  AtMost size a b = a.pri_store_bytes ≤ b.pri_store_bytes
  AtMost avg_shard a b = a.avg_shard_size_gb ≤ b.avg_shard_size_gb
  AtMost max_seg a b = a.max_segments_per_shard ≤ b.max_segments_per_shard
  AtMost issues a b = a.opportunity_count ≤ b.opportunity_count

  abbrev pub level : SortKey → AnalyzedIndex → AnalyzedIndex → Bool
  level name a b = is_eq (locale.collate a.name b.name)
  level pri a b = a.pri_count == b.pri_count
  level rep a b = a.rep_count == b.rep_count
  level docs a b = a.doc_count == b.doc_count
  level size a b = a.pri_store_bytes == b.pri_store_bytes
  level avg_shard a b = a.avg_shard_size_gb == b.avg_shard_size_gb
  level max_seg a b = a.max_segments_per_shard == b.max_segments_per_shard
  level issues a b = a.opportunity_count == b.opportunity_count

  abbrev pub Before : SortDir → SortKey → AnalyzedIndex → AnalyzedIndex → Type 0
  Before asc k a b = AtMost k a b
  Before desc k a b = AtMost k b a

  abbrev pub InOrder : SortDir → SortKey → List AnalyzedIndex → Type 0
  InOrder d k [] = Unit
  InOrder d k (a ∷ l) = All (λ b. Before d k a b) l × InOrder d k l

  compare_order :
      (k : SortKey) (a b : AnalyzedIndex) → is_gt (compare_by locale k a b) ≡ false → AtMost k a b
  unfolding compare_by
  compare_order name a b h = h
  compare_order pri a b h = le_of_not_gt a.pri_count b.pri_count h
  compare_order rep a b h = le_of_not_gt a.rep_count b.rep_count h
  compare_order docs a b h = le_of_not_gt a.doc_count b.doc_count h
  compare_order size a b h = le_of_not_gt a.pri_store_bytes b.pri_store_bytes h
  compare_order avg_shard a b h = le_of_not_gt a.avg_shard_size_gb b.avg_shard_size_gb h
  compare_order max_seg a b h = le_of_not_gt a.max_segments_per_shard b.max_segments_per_shard h
  compare_order issues a b h = le_of_not_gt a.opportunity_count b.opportunity_count h

  directed_order :
      (d : SortDir) (k : SortKey) (a b : AnalyzedIndex)
      → is_gt (directed d (compare_by locale k) a b) ≡ false
      → Before d k a b
  directed_order asc k a b h = compare_order k a b h
  directed_order desc k a b h = compare_order k b a (rw ((compare_by-IsConsistent k).flip a b) h)

  compare_level :
      (k : SortKey) (a b : AnalyzedIndex) → is_eq (compare_by locale k a b) ≡ level k a b
  unfolding compare_by
  compare_level name a b = refl
  compare_level pri a b = is_eq-compare a.pri_count b.pri_count
  compare_level rep a b = is_eq-compare a.rep_count b.rep_count
  compare_level docs a b = is_eq-compare a.doc_count b.doc_count
  compare_level size a b = is_eq-compare a.pri_store_bytes b.pri_store_bytes
  compare_level avg_shard a b = is_eq-compare a.avg_shard_size_gb b.avg_shard_size_gb
  compare_level max_seg a b = is_eq-compare a.max_segments_per_shard b.max_segments_per_shard
  compare_level issues a b = is_eq-compare a.opportunity_count b.opportunity_count

  directed-level :
      (d : SortDir) (k : SortKey) (a b : AnalyzedIndex)
      → is_eq (directed d (compare_by locale k) a b) ≡ level k a b
  directed-level asc k a b = compare_level k a b
  directed-level desc k a b = is_eq-negate (compare_by locale k a b) ∙ compare_level k a b

  sorted-InOrder :
      (d : SortDir) (k : SortKey) (l : List AnalyzedIndex)
      → IsSorted (directed d (compare_by locale k)) l
      → InOrder d k l
  sorted-InOrder d k [] h = tt
  sorted-InOrder d k (a ∷ l) h =
      (All-map (λ b. directed_order d k a b) l h.0, sorted-InOrder d k l h.1)

  passing_rows :
      (p : Page) (l : List AnalyzedIndex) → filtered_indices locale p l ≡ filter (passes p) l
  unfolding filtered_indices
  passing_rows p [] = refl
  passing_rows p (i ∷ is) = ground (arith, passing_rows p is)

  -- The rows of the index table are the indices that pass the filters, each as often as it came; they stand in
  -- the order of the chosen column, turned round for `desc`; and rows that are level in that column stand in the
  -- order of the snapshot.
  pub sorted_indices-InOrder :
      (p : Page) (indices : List AnalyzedIndex)
      → Perm (sorted_indices locale p indices) (filter (passes p) indices)
        × InOrder p.sorting.dir p.sorting.key (sorted_indices locale p indices)
        × ((a : AnalyzedIndex)
            → filter (level p.sorting.key a) (sorted_indices locale p indices)
              ≡ filter (level p.sorting.key a) (filter (passes p) indices))
  unfolding sorted_indices
  sorted_indices-InOrder p indices =
      let d = p.sorting.dir in
      let k = p.sorting.key in
      let table =
        sort-IsTable (directed-IsConsistent d (compare_by-IsConsistent k))
          (filtered_indices locale p indices) in
      let same = passing_rows p indices in
      (
        subst (λ l. Perm (sorted_indices locale p indices) l) same table.perm,
        sorted-InOrder d k (sorted_indices locale p indices) table.sorted,
        λ a.
            filter_ext (λ b. sym (directed-level d k a b)) (sorted_indices locale p indices)
            ∙ table.stable a
            ∙ filter_ext (directed-level d k a) (filtered_indices locale p indices)
            ∙ ap (filter (level k a)) same,
      )
