-- ===== src/Users/Access.antt =====
-- Which clusters the dialogs of frontend/src/pages/Users.tsx select.
use elastic_ops.Prelude.{
  ℕ, ◌==◌, ==_iff, Bool, true, false, not, ◌&&◌, ◌||◌, List, [], ◌∷◌, ◌++◌ as append, ◌≡◌, refl,
  subst, ◌∙◌, arith, if◌then◌else◌, filter, inl, inr, Bool-cases,
}
use elastic_ops.Users.{includes, toggle_cluster, toggles}

-- An odd number of clicks on a cluster.
abbrev pub clicked_odd : ℕ → List ℕ → Bool
clicked_odd i [] = false
clicked_odd i (j ∷ js) = let rest = clicked_odd i js in if j == i then not rest else rest

includes-append : (i j : ℕ) (l : List ℕ) → includes i (append l (j ∷ [])) ≡ includes i l || j == i
includes-append i j [] = ground arith
includes-append i j (k ∷ l) = ground (arith, includes-append i j l)

includes-without :
    (i j : ℕ) (l : List ℕ)
    → includes i (filter (λ k. not (k == j)) l) ≡ not (j == i) && includes i l
includes-without i j [] = ground arith
includes-without i j (k ∷ l) = ground (arith, includes-without i j l)

pub includes-toggle_cluster :
    (i j : ℕ) (l : List ℕ)
    → includes i (toggle_cluster j l) ≡ (if j == i then not (includes i l) else includes i l)
unfolding toggle_cluster
includes-toggle_cluster i j l = elim (Bool-cases (includes j l)) [
  | inl e ↦ rw e (elim (Bool-cases (j == i)) [
    | inl q ↦
        let same : includes i l ≡ true = subst (λ k. includes k l ≡ true) ((==_iff j i).0 q) e in
        includes-without i j l ∙ rw (q, same) refl
    | inr q ↦ includes-without i j l ∙ rw q refl
  ])
  | inr e ↦ rw e (elim (Bool-cases (j == i)) [
    | inl q ↦
        let same : includes i l ≡ false = subst (λ k. includes k l ≡ false) ((==_iff j i).0 q) e in
        includes-append i j l ∙ rw (q, same) refl
    | inr q ↦ includes-append i j l ∙ rw q (ground arith)
  ])
]

-- After any clicks the dialog submits a cluster exactly when it was selected at first and clicked an
-- even number of times, or was not and clicked an odd number of times.
pub includes-toggles :
    (clicks : List ℕ) (i : ℕ) (given : List ℕ)
    → includes i (toggles clicks given)
      ≡ (if clicked_odd i clicks then not (includes i given) else includes i given)
unfolding toggles
includes-toggles [] i given = refl
includes-toggles (j ∷ js) i given =
    includes-toggles js i (toggle_cluster j given)
    ∙ ground (arith, includes-toggle_cluster i j given)
