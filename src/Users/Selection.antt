-- ===== src/Users/Selection.antt =====
-- The clusters that a dialog of frontend/src/pages/Users.tsx selects, without their order: the backend keeps
-- the access of a user in rows, with no order, one for a user and a cluster.
use mathlib.Core.Quot
use mathlib.Core.Quot.{Quot, Quot-set}
use elastic_ops.Prelude.{
  ℕ, ◌+◌, ◌≤◌, ◌==◌, ==_iff, ltb, not, List, [], ◌∷◌, ◌++◌ as append, ◌≡◌, refl, sym, ◌∙◌, arith,
  filter, if◌then◌else◌, inl, inr, Bool-cases,
}
use elastic_ops.Users.{includes, toggle_cluster, toggles}

-- How often a cluster is listed.
abbrev pub count : ℕ → List ℕ → ℕ
count i [] = 0
count i (j ∷ js) = (if j == i then 1 else 0) + count i js

-- The backend keeps a row for each entry, and refuses two rows of one user and one cluster.
abbrev pub IsOnce : List ℕ → Type 0
IsOnce l = (i : ℕ) → count i l ≤ 1

abbrev pub SameClusters : List ℕ → List ℕ → Type 0
SameClusters xs ys = (i : ℕ) → count i xs ≡ count i ys

abbrev pub Selection : Type 0
Selection = Quot SameClusters

abbrev pub selected_of : List ℕ → Selection
selected_of l = Quot.mk l

count-append :
    (i j : ℕ) (l : List ℕ) → count i (append l (j ∷ [])) ≡ count i l + (if j == i then 1 else 0)
count-append i j [] = omega arith
count-append i j (k ∷ l) = omega (arith, count-append i j l)

count-without :
    (i j : ℕ) (l : List ℕ)
    → count i (filter (λ k. not (k == j)) l) ≡ (if j == i then 0 else count i l)
count-without i j [] = ground arith
count-without i j (k ∷ l) = ground (arith, count-without i j l)

count-includes : (i : ℕ) (l : List ℕ) → includes i l ≡ ltb 0 (count i l)
count-includes i [] = refl
count-includes i (k ∷ l) = ground (arith, count-includes i l)

count-toggle_cluster :
    (i j : ℕ) (l : List ℕ)
    → count i (toggle_cluster j l)
      ≡ (if j == i then (if ltb 0 (count i l) then 0 else 1) else count i l)
unfolding toggle_cluster
count-toggle_cluster i j l = elim (Bool-cases (j == i)) [
  | inl e ↦
      let same : j ≡ i = (==_iff j i).0 e in
      rw (same, (==_iff i i).1 refl)
        (elim (Bool-cases (includes i l)) [
          | inl h ↦ rw h (ground (arith, count-without i i l, count-includes i l))
          | inr h ↦ rw h (ground (arith, count-append i i l, count-includes i l))
        ])
  | inr e ↦ rw e (elim (Bool-cases (includes j l)) [
    | inl h ↦ rw h (count-without i j l ∙ rw e refl)
    | inr h ↦ rw h (count-append i j l ∙ ground arith)
  ])
]

pub toggle-SameClusters :
    (j : ℕ) (xs ys : List ℕ)
    → SameClusters xs ys
    → SameClusters (toggle_cluster j xs) (toggle_cluster j ys)
toggle-SameClusters j xs ys h i =
    count-toggle_cluster i j xs ∙ rw (h i) refl ∙ sym (count-toggle_cluster i j ys)

-- A click, on the selection.
unfoldable pub toggle : ℕ → Selection → Selection
toggle j =
    Quot.lift Quot-set (λ l. selected_of (toggle_cluster j l))
      (λ xs ys h. Quot.sound (toggle-SameClusters j xs ys h))

unfoldable pub toggle_all : List ℕ → Selection → Selection
unfolding toggle
toggle_all [] s = s
toggle_all (j ∷ js) s = toggle_all js (toggle j s)

swap_same :
    (j k : ℕ) (l : List ℕ)
    → SameClusters (toggle_cluster j (toggle_cluster k l)) (toggle_cluster k (toggle_cluster j l))
swap_same j k l i =
    count-toggle_cluster i j (toggle_cluster k l)
    ∙ rw (count-toggle_cluster i k l) (
        rw (count-toggle_cluster i k (toggle_cluster j l), count-toggle_cluster i j l)
          (ground arith))

twice_same :
    (j : ℕ) (l : List ℕ) → IsOnce l → SameClusters (toggle_cluster j (toggle_cluster j l)) l
twice_same j l once i =
    count-toggle_cluster i j (toggle_cluster j l)
    ∙ rw (count-toggle_cluster i j l) (ground (arith, once i))

toggles-IsOnce : (js l : List ℕ) → IsOnce l → IsOnce (toggles js l)
unfolding toggles
toggles-IsOnce [] l once = once
toggles-IsOnce (j ∷ js) l once =
    toggles-IsOnce js (toggle_cluster j l)
      (λ i. rw (count-toggle_cluster i j l) (ground (arith, once i)))

toggles-toggle_all : (js l : List ℕ) → selected_of (toggles js l) ≡ toggle_all js (selected_of l)
unfolding toggles toggle_all toggle
toggles-toggle_all [] l = refl
toggles-toggle_all (j ∷ js) l = toggles-toggle_all js (toggle_cluster j l)

toggle_comm : (j k : ℕ) (s : Selection) → toggle j (toggle k s) ≡ toggle k (toggle j s)
unfolding toggle
toggle_comm j k = Quot.ind (λ b. Quot-set _ _) (λ l. Quot.sound (swap_same j k l))

-- Clicks on a list without duplicates leave one without, so that the dialog submits no cluster twice; but for the
-- order of the list they are clicks on a selection; on selections two clicks can be swapped, and after any clicks
-- the same click twice is none.
pub clicks_on_sets :
    (js l : List ℕ) (j k : ℕ) (s : Selection)
    → IsOnce l
    → IsOnce (toggles js l)
      × (selected_of (toggles js l) ≡ toggle_all js (selected_of l))
      × (toggle j (toggle k s) ≡ toggle k (toggle j s))
      × (toggle j (toggle j (selected_of (toggles js l))) ≡ selected_of (toggles js l))
unfolding toggle
clicks_on_sets js l j k s once = (
  toggles-IsOnce js l once,
  toggles-toggle_all js l,
  toggle_comm j k s,
  Quot.sound (twice_same j (toggles js l) (toggles-IsOnce js l once)),
)
