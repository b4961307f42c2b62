-- ===== src/Settings/Rows/Once.antt =====
-- How many rows of the settings table a key has.
use text.Mathlib.Text.{◌==◌ as str_eq}
use elastic_ops.Prelude.{
  ℕ, ◌+◌, ◌≤◌, true, length, filter, String, ◌||◌, Option, none, some, List, [], ◌∷◌, ◌++◌, map,
  ◌≡◌, refl, arith, if◌then◌else◌, is_some, inl, inr, Bool-cases, Option-cases, ◌∙◌, ap,
}
use elastic_ops.Prelude.Text.{truthy}
use elastic_ops.Prelude.Locale.{Locale}
use elastic_ops.Api.Storage.{get_item}
use elastic_ops.Api.Es.{ClusterSettings}
use elastic_ops.Settings.{
  Scope, persistent, transient, SettingRow, seen, fresh, keys_after, modified_row, default_row,
  unseen_matches, rows,
}
use elastic_ops.Settings.Rows.{
  row_of, seen-keys_after, get_item-fresh, get_item-unseen_matches, shown_defaults, shown_row,
  row_of-joined,
}

abbrev pub rows_of : String → List SettingRow → List SettingRow
rows_of k rs = filter (λ r. str_eq r.key k) rs

-- How often an object lists a key.
abbrev pub times : String → List (String × String) → ℕ
times k [] = 0
times k ((j, v) ∷ rest) = (if str_eq j k then 1 else 0) + times k rest

times-none : (k : String) (es : List (String × String)) → get_item k es ≡ none → times k es ≡ 0
unfolding get_item
times-none k [] h = refl
times-none k ((j, v) ∷ rest) h = ground (arith, times-none k rest)

times-fresh :
    (k : String) (keys : List String) (es : List (String × String)) → times k (fresh keys es) ≤ 1
unfolding fresh
times-fresh k keys [] = omega arith
times-fresh k keys ((j, v) ∷ rest) = elim (Bool-cases (seen j keys)) [
  | inl e ↦ rw e (times-fresh k keys rest)
  | inr e ↦ rw e (elim (Bool-cases (str_eq j k)) [
    | inl y ↦
        let gone =
          times-none k (fresh (j ∷ keys) rest) (get_item-fresh k (j ∷ keys) rest ∙ rw y refl) in
        rw y (omega (arith, gone))
    | inr n ↦ rw n (omega (arith, times-fresh k (j ∷ keys) rest))
  ])
]

times-unseen_matches :
    (locale : Locale) (text k : String) (keys : List String) (es : List (String × String))
    → times k (unseen_matches locale text keys es) ≤ times k es
unfolding unseen_matches
times-unseen_matches locale text k keys [] = omega arith
times-unseen_matches locale text k keys ((j, v) ∷ rest) =
    ground (arith, times-unseen_matches locale text k keys rest)

length-modified :
    (k : String) (scope : Scope) (c : ClusterSettings) (es : List (String × String))
    → length (rows_of k (map (modified_row scope c) es)) ≡ times k es
unfolding modified_row
length-modified k scope c [] = refl
length-modified k scope c ((j, v) ∷ rest) = ground (arith, length-modified k scope c rest)

length-default :
    (k : String) (es : List (String × String))
    → length (rows_of k (map default_row es)) ≡ times k es
unfolding default_row
length-default k [] = refl
length-default k ((j, v) ∷ rest) = ground (arith, length-default k rest)

length-append_rows :
    (k : String) (rs ts : List SettingRow)
    → length (rows_of k (rs ++ ts)) ≡ length (rows_of k rs) + length (rows_of k ts)
length-append_rows k [] ts = omega arith
length-append_rows k (r ∷ rs) ts = ground (arith, length-append_rows k rs ts)

abbrev pub at_most_one {ℓ} : {A : Type ℓ} → Option A → List A
at_most_one none = []
at_most_one (some a) = a ∷ []

nothing_left : (k : String) (rs : List SettingRow) → length (rows_of k rs) ≡ 0 → rows_of k rs ≡ []
nothing_left k [] h = refl
nothing_left k (r ∷ rs) h = ground (arith, nothing_left k rs)

only_row :
    (k : String) (rs : List SettingRow)
    → length (rows_of k rs) ≤ 1
    → rows_of k rs ≡ at_most_one (row_of k rs)
only_row k [] h = refl
only_row k (r ∷ rs) h = elim (Bool-cases (str_eq r.key k)) [
  | inl e ↦ rw e (ap (◌∷◌ r) (nothing_left k rs (ground arith)))
  | inr e ↦ rw e (only_row k rs (ground arith))
]

length-shown_defaults :
    (locale : Locale) (text k : String) (keys : List String) (c : ClusterSettings)
    → length (rows_of k (shown_defaults locale text keys c))
      ≤ times k (unseen_matches locale text keys c.defaults)
length-shown_defaults locale text k keys c = elim (Bool-cases (truthy text)) [
  | inl t ↦ rw t (omega (arith, length-default k (unseen_matches locale text keys c.defaults)))
  | inr t ↦ rw t (omega arith)
]

-- Of the three loops at most one lists a key.
one_loop :
    (locale : Locale) (text k : String) (c : ClusterSettings) (first second : List String)
    → first ≡ keys_after [] c.persistent
    → second ≡ keys_after first c.transient
    → times k c.persistent ≤ 1
    → times k c.defaults ≤ 1
    → times k c.persistent
        + times k (fresh first c.transient)
        + times k (unseen_matches locale text second c.defaults)
      ≤ 1
one_loop locale text k c first second p q one_persistent one_default =
    let first_seen : seen k first ≡ is_some (get_item k c.persistent) =
      ap (seen k) p ∙ seen-keys_after k [] c.persistent in
    let second_seen : seen k second ≡ seen k first || is_some (get_item k c.transient) =
      ap (seen k) q ∙ seen-keys_after k first c.transient in
    let new = get_item-fresh k first c.transient in
    let more = get_item-unseen_matches locale text k second c.defaults in
    let at_most = times-unseen_matches locale text k second c.defaults in
    let once = times-fresh k first c.transient in
    elim (Option-cases (get_item k c.persistent)) [
      | inr (v, e) ↦
          let here : seen k first ≡ true = first_seen ∙ rw e refl in
          let there : seen k second ≡ true = second_seen ∙ rw here refl in
          let a = times-none k (fresh first c.transient) (new ∙ rw here refl) in
          let b =
            times-none k (unseen_matches locale text second c.defaults) (more ∙ rw there refl) in
          omega (arith, a, b)
      | inl e ↦
          let absent = times-none k c.persistent e in
          elim (Option-cases (get_item k c.transient)) [
            | inr (v, h) ↦
                let there : seen k second ≡ true = second_seen ∙ rw h (ground arith) in
                let b =
                  times-none k (unseen_matches locale text second c.defaults)
                    (more ∙ rw there refl) in
                omega (arith, absent, b, once)
            | inl h ↦
                let a = times-none k (fresh first c.transient) (new ∙ rw h (ground arith)) in
                omega (arith, absent, a, at_most)
          ]
    ]

at_most_one_row :
    (locale : Locale) (text k : String) (c : ClusterSettings)
    → times k c.persistent ≤ 1
    → times k c.defaults ≤ 1
    → length (rows_of k (rows locale text c)) ≤ 1
unfolding rows
at_most_one_row locale text k c p d =
    let first = keys_after [] c.persistent in
    let second = keys_after first c.transient in
    let kept = map (modified_row persistent c) c.persistent in
    let added = map (modified_row transient c) (fresh first c.transient) in
    let tail = shown_defaults locale text second c in
    omega (
      arith,
      length-append_rows k (kept ++ added) tail,
      length-append_rows k kept added,
      length-modified k persistent c c.persistent,
      length-modified k transient c (fresh first c.transient),
      length-shown_defaults locale text k second c,
      one_loop locale text k c first second refl refl p d,
    )

-- Where the persistent settings and the defaults list a key at most once, as objects do, the table has no row of
-- the key or exactly one: its persistent value where it has one, else its transient value, else, where the search
-- text is not empty and occurs in the key without regard to case, its default.
pub rows_of-rows :
    (locale : Locale) (text : String) (c : ClusterSettings) (k : String)
    → times k c.persistent ≤ 1
    → times k c.defaults ≤ 1
    → rows_of k (rows locale text c) ≡ at_most_one (shown_row locale text c k)
unfolding rows
rows_of-rows locale text c k p d =
    only_row k (rows locale text c) (at_most_one_row locale text k c p d)
    ∙ ap at_most_one (row_of-joined locale text k c (keys_after [] c.persistent) refl)
