-- ===== src/Nodes/Laws.antt =====
-- The rows of the node table, the role cards, the longest list of shards and the disk colours.
use text.Mathlib.Text.{◌==◌ as str_eq}
use text.Mathlib.TextEquality.{eq_iff}
use elastic_ops.Prelude.{
  ℕ, ◌+◌, Bool, true, false, not, ◌||◌, Option, List, [], ◌∷◌, ◌≡◌, ◌≢◌, ◌↔◌, refl, subst, ltb, leb,
  arith, if◌then◌else◌, filter, length, any, inl, inr, Bool-cases,
}
use elastic_ops.Prelude.Order.{IsConsistent, by_number-IsConsistent}
use elastic_ops.Prelude.Locale.{Locale, collate_by-IsConsistent}
use elastic_ops.Api.Es.{NodeInfoEx}
use elastic_ops.Table.{directed, directed-IsConsistent, IsTable, sort-IsTable}
use elastic_ops.Format.{disk_color}
use elastic_ops.Nodes.{
  SortKey, name, ip, role, version, disk, heap, cpu, load, shards, storage, Page, filtered_nodes,
  compare_by, sorted_nodes, disk_bar_color, data_tiers, master_nodes, data_nodes, coord_nodes,
}

module _ (locale : Locale) where
  compare_by-IsConsistent : (k : SortKey) → IsConsistent (λ a b. compare_by locale k a b)
  unfolding compare_by
  compare_by-IsConsistent name = collate_by-IsConsistent locale (λ n. n.name)
  compare_by-IsConsistent ip = collate_by-IsConsistent locale (λ n. n.ip)
  compare_by-IsConsistent role = collate_by-IsConsistent locale (λ n. n.tier)
  compare_by-IsConsistent version = collate_by-IsConsistent locale (λ n. n.version)
  compare_by-IsConsistent disk = by_number-IsConsistent (λ n. n.disk_used_percent)
  compare_by-IsConsistent heap = by_number-IsConsistent (λ n. n.heap_percent)
  compare_by-IsConsistent cpu = by_number-IsConsistent (λ n. n.cpu)
  compare_by-IsConsistent load = by_number-IsConsistent (λ n. n.load_1m)
  compare_by-IsConsistent shards = by_number-IsConsistent (λ n. n.shard_count)
  compare_by-IsConsistent storage = by_number-IsConsistent (λ n. n.disk_used)

  -- The rows of the node table are the nodes that pass the text and the role filter, each as often
  -- as it came, in the order of the chosen column and direction, ties in the order of the snapshot.
  pub sorted_nodes-IsTable :
      (p : Page) (nodes : Option (List NodeInfoEx))
      → IsTable
          (directed p.sorting.dir (compare_by locale p.sorting.key))
          (filtered_nodes locale p nodes)
          (sorted_nodes locale p nodes)
  unfolding sorted_nodes
  sorted_nodes-IsTable p nodes =
      sort-IsTable (directed-IsConsistent p.sorting.dir (compare_by-IsConsistent p.sorting.key))
        (filtered_nodes locale p nodes)

count_cons :
    (p : NodeInfoEx → Bool) (n : NodeInfoEx) (ns : List NodeInfoEx)
    → length (filter p (n ∷ ns)) ≡ (if p n then 1 else 0) + length (filter p ns)
count_cons p n ns = ground arith

abbrev is_master : NodeInfoEx → Bool
is_master n = str_eq n.tier "master"

abbrev is_data : NodeInfoEx → Bool
is_data n = any (λ t. str_eq t n.tier) data_tiers

abbrev is_coord : NodeInfoEx → Bool
is_coord n = str_eq n.tier "coord"

-- The nodes of no card.
abbrev pub is_other : NodeInfoEx → Bool
is_other n = not (is_master n || is_data n || is_coord n)

abbrev one : Bool → ℕ
one b = if b then 1 else 0

on_one_card :
    (n : NodeInfoEx) → one (is_master n) + one (is_data n) + one (is_coord n) + one (is_other n) ≡ 1
on_one_card n = elim (Bool-cases (str_eq n.tier "master")) [
  | inl e ↦ rw ((eq_iff n.tier "master").0 e) refl
  | inr e ↦ elim (Bool-cases (str_eq n.tier "coord")) [
    | inl c ↦ rw ((eq_iff n.tier "coord").0 c) refl
    | inr c ↦ rw (e, c) (ground arith)
  ]
]

-- Every node is counted on exactly one role card, or on none where its tier is none of the six known
-- ones.
pub role_cards :
    (nodes : List NodeInfoEx)
    → length (master_nodes nodes)
        + length (data_nodes nodes)
        + length (coord_nodes nodes)
        + length (filter is_other nodes)
      ≡ length nodes
unfolding master_nodes data_nodes coord_nodes
role_cards [] = omega arith
role_cards (n ∷ ns) = omega (
  arith,
  count_cons is_master n ns,
  count_cons is_data n ns,
  count_cons is_coord n ns,
  count_cons is_other n ns,
  on_one_card n,
  role_cards ns,
)

-- The bar of a node and the colour that the other pages give its disk differ at 85 % and nowhere
-- else.
pub disk_bar_iff : (percent : ℕ) → (disk_bar_color percent ≡ disk_color percent) ↔ (percent ≢ 8500)
unfolding disk_bar_color disk_color
disk_bar_iff percent = (
  λ e q. let same = subst (λ n. disk_bar_color n ≡ disk_color n) q e in cc same,
  λ other. elim (Bool-cases (ltb 8500 percent)) [
    | inl e ↦ let f : leb 8500 percent ≡ true = ground arith in rw (e, f) refl
    | inr e ↦ let f : leb 8500 percent ≡ false = ground arith in rw (e, f) refl
  ],
)
