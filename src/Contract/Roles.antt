-- ===== src/Contract/Roles.antt =====
-- The roles of the backend (backend/services/role_logic.py) on the pages that count nodes: the cards of
-- frontend/src/pages/Nodes.tsx and of Overview.tsx.
use text.Mathlib.Text.{◌==◌ as str_eq}
use text.Mathlib.TextEquality.{eq_iff}
use elastic_ops.Prelude.{
  ℕ, ◌+◌, String, Bool, true, false, ◌||◌, List, [], ◌∷◌, ◌≡◌, inl, inr, refl, sym, ◌∙◌, arith, any,
  length, if◌then◌else◌, Bool-cases,
}
use elastic_ops.Prelude.Text.{includes}
use elastic_ops.Nodes.{data_tiers}
use elastic_ops.Backend.Roles.{
  is_coord, data_tier_letters, is_data_node, node_tier, Counts, count_role, count_from, role_counts,
}

-- Whether the "Data Nodes" card counts a node with a tier.
abbrev pub in_data_card : String → Bool
in_data_card tier = any (λ t. str_eq t tier) data_tiers

lacks :
    (role name letter : String)
    → includes role letter ≡ false
    → includes name letter ≡ true
    → str_eq name role ≡ false
lacks role name letter h k = elim (Bool-cases (str_eq name role)) [
  | inl e ↦
      let same : name ≡ role = (eq_iff name role).0 e in
      let clash : true ≡ false = sym k ∙ (rw same h) in cc
  | inr e ↦ e
]

-- The part of both tests that looks at the letters.
by_letters :
    (role : String)
    → in_data_card (
        if includes role "h"
        then "hot"
        else if includes role "w"
        then "warm"
        else if includes role "c"
        then "cold"
        else if includes role "d" || includes role "s"
        then "data"
        else role)
      ≡ any (λ letter. includes role letter) data_tier_letters
by_letters role = elim (Bool-cases (includes role "h")) [
  | inl h ↦ rw h (ground arith)
  | inr no_h ↦ elim (Bool-cases (includes role "w")) [
    | inl w ↦ rw (no_h, w) (ground arith)
    | inr no_w ↦ elim (Bool-cases (includes role "c")) [
      | inl c ↦ rw (no_h, no_w, c) (ground arith)
      | inr no_c ↦ elim (Bool-cases (includes role "d" || includes role "s")) [
        | inl ds ↦ rw (no_h, no_w, no_c, ds) (ground arith)
        | inr no_ds ↦
            let no_d : includes role "d" ≡ false = ground arith in
            let no_s : includes role "s" ≡ false = ground arith in
            rw
              (
                no_h,
                no_w,
                no_c,
                no_d,
                no_s,
                lacks role "hot" "h" no_h refl,
                lacks role "warm" "w" no_w refl,
                lacks role "cold" "c" no_c refl,
                lacks role "data" "d" no_d refl,
              )
              refl
      ]
    ]
  ]
]

-- The "Data Nodes" card of the node page counts a node by its tier exactly where the backend takes it for a data
-- node by its role.
pub data_card_agrees : (role : String) → in_data_card (node_tier role) ≡ is_data_node role
unfolding node_tier is_data_node
data_card_agrees role = elim (Bool-cases (is_coord role)) [
  | inl e ↦ rw e refl
  | inr e ↦ elim (Bool-cases (str_eq role "m")) [
    | inl m ↦ let same : role ≡ "m" = (eq_iff role "m").0 m in rw same refl
    | inr no_m ↦ rw (e, no_m) (by_letters role)
  ]
]

abbrev pub total : Counts → ℕ
total c = c.master + c.data_count + c.coord + c.ingest + c.other

total-count_role : (role : String) (c : Counts) → total (count_role role c) ≡ total c + 1
unfolding count_role
total-count_role role c = elim (Bool-cases (is_coord role)) [
  | inl e ↦ rw e (omega arith)
  | inr e ↦ elim (Bool-cases (any (λ letter. includes role letter) data_tier_letters)) [
    | inl d ↦ rw (e, d) (omega arith)
    | inr d ↦ elim (Bool-cases (includes role "m")) [
      | inl m ↦ rw (e, d, m) (omega arith)
      | inr m ↦ elim (Bool-cases (includes role "i")) [
        | inl i ↦ rw (e, d, m, i) (omega arith)
        | inr i ↦ rw (e, d, m, i) (omega arith)
      ]
    ]
  ]
]

total-count_from :
    (c : Counts) (roles : List String) → total (count_from c roles) ≡ total c + length roles
unfolding count_from
total-count_from c [] = omega arith
total-count_from c (r ∷ rs) =
    omega (arith, total-count_from (count_role r c) rs, total-count_role r c)

-- The counts of the overview add up to the nodes: each is counted once.
pub role_counts_total : (roles : List String) → total (role_counts roles) ≡ length roles
unfolding role_counts
role_counts_total roles = omega (
  arith,
  total-count_from (record { master = 0; data_count = 0; coord = 0; ingest = 0; other = 0 }) roles,
)

-- A node of role "im" is a master of the overview's figures and stands on no card of the node page.
masters_differ : ((role_counts ("im" ∷ [])).master ≡ 1) × (str_eq (node_tier "im") "master" ≡ false)
unfolding role_counts node_tier is_data_node count_from
masters_differ = (refl, refl)
