-- ===== src/Settings/Rows.antt =====
-- The row of each key of the settings table.
pub mod Once
use text.Mathlib.Text.{◌==◌ as str_eq}
use text.Mathlib.TextEquality.{eq_iff}
use elastic_ops.Prelude.{
  ℕ, ◌+◌, ◌≤◌, true, length, filter, String, ◌&&◌, ◌||◌, Option, none, some, List, [], ◌∷◌, ◌++◌,
  map, ◌≡◌, refl, arith, if◌then◌else◌, find?, is_some, inl, inr, Bool-cases, Option-cases, ◌∙◌, ap,
}
use elastic_ops.Prelude.Text.{truthy, includes}
use elastic_ops.Prelude.Locale.{Locale}
use elastic_ops.Api.Storage.{get_item}
use elastic_ops.Api.Es.{ClusterSettings}
use elastic_ops.Settings.{
  Scope, persistent, transient, SettingRow, seen, fresh, keys_after, modified_row, default_row,
  unseen_matches, rows,
}

-- The first row of a key.
abbrev pub row_of : String → List SettingRow → Option SettingRow
row_of k rs = find? (λ r. str_eq r.key k) rs

abbrev or_else {ℓ} : {A : Type ℓ} → Option A → Option A → Option A
or_else none b = b
or_else (some a) b = some a

abbrev pub option_map {ℓ} : {A B : Type ℓ} → (A → B) → Option A → Option B
option_map f none = none
option_map f (some a) = some (f a)

row_of-append :
    (k : String) (rs ts : List SettingRow)
    → row_of k (rs ++ ts) ≡ or_else (row_of k rs) (row_of k ts)
row_of-append k [] ts = refl
row_of-append k (r ∷ rs) ts = elim (Bool-cases (str_eq r.key k)) [
  | inl e ↦ rw e refl
  | inr e ↦ rw e (row_of-append k rs ts)
]

row_of-modified :
    (k : String) (scope : Scope) (c : ClusterSettings) (entries : List (String × String))
    → row_of k (map (modified_row scope c) entries)
      ≡ option_map (λ v. modified_row scope c (k, v)) (get_item k entries)
unfolding modified_row get_item
row_of-modified k scope c [] = refl
row_of-modified k scope c ((j, v) ∷ rest) = elim (Bool-cases (str_eq j k)) [
  | inl e ↦ rw e (rw ((eq_iff j k).0 e) refl)
  | inr e ↦ rw e (row_of-modified k scope c rest)
]

row_of-default :
    (k : String) (entries : List (String × String))
    → row_of k (map default_row entries) ≡ option_map (λ v. default_row (k, v)) (get_item k entries)
unfolding default_row get_item
row_of-default k [] = refl
row_of-default k ((j, v) ∷ rest) = elim (Bool-cases (str_eq j k)) [
  | inl e ↦ rw e (rw ((eq_iff j k).0 e) refl)
  | inr e ↦ rw e (row_of-default k rest)
]

pub seen-keys_after :
    (k : String) (keys : List String) (entries : List (String × String))
    → seen k (keys_after keys entries) ≡ seen k keys || is_some (get_item k entries)
unfolding keys_after get_item
seen-keys_after k keys [] = ground arith
seen-keys_after k keys ((j, v) ∷ rest) = seen-keys_after k (j ∷ keys) rest ∙ ground arith

pub get_item-fresh :
    (k : String) (keys : List String) (entries : List (String × String))
    → get_item k (fresh keys entries) ≡ (if seen k keys then none else get_item k entries)
unfolding fresh get_item
get_item-fresh k keys [] = ground arith
get_item-fresh k keys ((j, v) ∷ rest) =
    ground (arith, eq_iff j k, get_item-fresh k keys rest, get_item-fresh k (j ∷ keys) rest)

pub get_item-unseen_matches :
    (locale : Locale) (text k : String) (keys : List String) (entries : List (String × String))
    → get_item k (unseen_matches locale text keys entries) ≡ (
        if seen k keys
        then none
        else if includes (locale.lower k) (locale.lower text)
        then get_item k entries
        else none)
unfolding unseen_matches get_item
get_item-unseen_matches locale text k keys [] = ground arith
get_item-unseen_matches locale text k keys ((j, v) ∷ rest) =
    ground (arith, eq_iff j k, get_item-unseen_matches locale text k keys rest)

abbrev pub shown_defaults : Locale → String → List String → ClusterSettings → List SettingRow
shown_defaults locale text keys c =
    if truthy text then map default_row (unseen_matches locale text keys c.defaults) else []

row_of-shown_defaults :
    (locale : Locale) (text k : String) (keys : List String) (c : ClusterSettings)
    → row_of k (shown_defaults locale text keys c) ≡ (
        if seen k keys
        then none
        else if truthy text && includes (locale.lower k) (locale.lower text)
        then option_map (λ v. default_row (k, v)) (get_item k c.defaults)
        else none)
row_of-shown_defaults locale text k keys c = elim (Bool-cases (truthy text)) [
  | inr t ↦ rw t (ground arith)
  | inl t ↦
      rw
        (
          t,
          row_of-default k (unseen_matches locale text keys c.defaults),
          get_item-unseen_matches locale text k keys c.defaults,
        )
        (ground arith)
]

-- What the table shows for a key, stated at once.
abbrev pub chosen_row :
    Locale → String → ClusterSettings → String → Option String → Option String → Option SettingRow
chosen_row locale text c k (some v) t = some (modified_row persistent c (k, v))
chosen_row locale text c k none (some v) = some (modified_row transient c (k, v))
chosen_row locale text c k none none =
    if truthy text && includes (locale.lower k) (locale.lower text)
    then option_map (λ v. default_row (k, v)) (get_item k c.defaults)
    else none

abbrev pub shown_row : Locale → String → ClusterSettings → String → Option SettingRow
shown_row locale text c k =
    chosen_row locale text c k (get_item k c.persistent) (get_item k c.transient)

pub row_of-joined :
    (locale : Locale) (text k : String) (c : ClusterSettings) (first : List String)
    → first ≡ keys_after [] c.persistent
    → row_of k (
        map (modified_row persistent c) c.persistent
        ++ map (modified_row transient c) (fresh first c.transient)
        ++ shown_defaults locale text (keys_after first c.transient) c)
      ≡ shown_row locale text c k
row_of-joined locale text k c first q =
    let tail = shown_defaults locale text (keys_after first c.transient) c in
    let known : seen k first ≡ is_some (get_item k c.persistent) =
      ap (seen k) q ∙ seen-keys_after k [] c.persistent in
    rw
      (
        row_of-append k
            (map (modified_row persistent c) c.persistent
              ++ map (modified_row transient c) (fresh first c.transient))
            tail,
        row_of-append k (map (modified_row persistent c) c.persistent)
            (map (modified_row transient c) (fresh first c.transient)),
        row_of-modified k persistent c c.persistent,
        row_of-modified k transient c (fresh first c.transient),
        get_item-fresh k first c.transient,
        row_of-shown_defaults locale text k (keys_after first c.transient) c,
        seen-keys_after k first c.transient,
        known,
      )
      (elim (Option-cases (get_item k c.persistent)) [
        | inr (v, e) ↦ rw e refl
        | inl e ↦ elim (Option-cases (get_item k c.transient)) [
          | inr (v, f) ↦ rw (e, f) refl
          | inl f ↦ rw (e, f) refl
        ]
      ])
