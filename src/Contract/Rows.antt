-- ===== src/Contract/Rows.antt =====
-- Rows of which no two have one identifier, and what a job that is queued changes of them.
use elastic_ops.Prelude.{
  ℕ, String, Bool, true, false, some, List, [], ◌∷◌, ◌≡◌, refl, ap, arith, All, filter, find?,
  head?, length, Bool-cases, inl, inr, ==_iff,
}
use elastic_ops.Api.Jobs.{Job}
use elastic_ops.Backend.Jobs.{has_id, get_job, update_where, queued}
use elastic_ops.Jobs.Execution.{has_status}

-- No two rows have one identifier.
abbrev pub Distinct : List Job → Type 0
Distinct [] = Unit
Distinct (j ∷ js) = All (λ k. has_id j.id k ≡ false) js × Distinct js

abbrev pub approved : Job → Bool
approved = has_status "approved"

pub some_inj : {a b : Job} → some a ≡ some b → a ≡ b
some_inj h = cc

abbrev pub rest_of : List Job → List Job
rest_of [] = []
rest_of (x ∷ xs) = xs

pub nil_of_length : (l : List Job) → length l ≡ 0 → l ≡ []
nil_of_length [] h = refl
nil_of_length (x ∷ xs) h = absurd (omega (arith, h))

pub cons_of_head : (l : List Job) {j : Job} → head? l ≡ some j → l ≡ j ∷ rest_of l
cons_of_head [] h = cc
cons_of_head (x ∷ xs) h = ap (λ y. y ∷ xs) (some_inj h)

pub update_fresh :
    (n : ℕ) (f : Job → Job) (rows : List Job)
    → All (λ k. has_id n k ≡ false) rows
    → update_where (has_id n) f rows ≡ rows
update_fresh n f [] h = refl
update_fresh n f (j ∷ js) h = rw h.0 (ap (◌∷◌ j) (update_fresh n f js h.1))

find_fresh :
    (n : ℕ) (rows : List Job) {j : Job}
    → All (λ k. has_id n k ≡ false) rows
    → find? approved rows ≡ some j
    → has_id n j ≡ false
find_fresh n [] h e = cc
find_fresh n (k ∷ ks) {j} h e = elim (Bool-cases (approved k)) [
  | inl y ↦ let same : k ≡ j = some_inj (rw y at e) in rw (← same) h.0
  | inr no_k ↦ find_fresh n ks h.1 (rw no_k at e)
]

pub executed_rows :
    (now : String) (rows : List Job) {j : Job}
    → Distinct rows
    → find? approved rows ≡ some j
    → filter approved (update_where (has_id j.id) (queued now) rows)
      ≡ rest_of (filter approved rows)
executed_rows now [] d e = cc
executed_rows now (k ∷ ks) {j} d e = elim (Bool-cases (approved k)) [
  | inl y ↦
      let same : k ≡ j = some_inj (rw y at e) in
      let own : has_id j.id j ≡ true = (==_iff j.id j.id).1 refl in
      let fresh = update_fresh j.id (queued now) ks (rw same at d.0) in
      rw (same, own, rw same at y, fresh) refl
  | inr no_k ↦
      let there : find? approved ks ≡ some j = rw no_k at e in
      let other : has_id k.id j ≡ false = find_fresh k.id ks d.0 there in
      let apart : has_id j.id k ≡ false = ground (arith) in
      rw (apart, no_k) (executed_rows now ks d.1 there)
]

fresh-update :
    (m n : ℕ) (now : String) (rows : List Job)
    → All (λ k. has_id m k ≡ false) rows
    → All (λ k. has_id m k ≡ false) (update_where (has_id n) (queued now) rows)
fresh-update m n now [] h = tt
fresh-update m n now (k ∷ ks) h = elim (Bool-cases (has_id n k)) [
  | inl e ↦ rw e (h.0, fresh-update m n now ks h.1)
  | inr e ↦ rw e (h.0, fresh-update m n now ks h.1)
]

pub Distinct-update :
    (n : ℕ) (now : String) (rows : List Job)
    → Distinct rows
    → Distinct (update_where (has_id n) (queued now) rows)
Distinct-update n now [] d = tt
Distinct-update n now (k ∷ ks) d =
    let fresh = fresh-update k.id n now ks d.0 in
    let later = Distinct-update n now ks d.1 in
    elim (Bool-cases (has_id n k)) [ inl e ↦ rw e (fresh, later) | inr e ↦ rw e (fresh, later) ]

pub get_own :
    (rows : List Job) {j : Job}
    → Distinct rows
    → find? approved rows ≡ some j
    → get_job j.id rows ≡ some j
unfolding get_job
get_own [] d e = cc
get_own (k ∷ ks) {j} d e = elim (Bool-cases (approved k)) [
  | inl y ↦
      let same : k ≡ j = some_inj (rw y at e) in
      let own : has_id j.id j ≡ true = (==_iff j.id j.id).1 refl in rw (same, own) refl
  | inr no_k ↦
      let there : find? approved ks ≡ some j = rw no_k at e in
      let other : has_id k.id j ≡ false = find_fresh k.id ks d.0 there in
      let apart : has_id j.id k ≡ false = ground arith in rw apart (get_own ks d.1 there)
]
