-- ===== src/Backend/Jobs/Gate.antt =====
-- How many jobs of a cluster and an index are in flight, before and after the handlers that start jobs.
use text.Mathlib.Text.{◌==◌ as str_eq}
use text.Mathlib.TextEquality.{eq_iff}
use native.Mathlib.Decide.{dec_lt}
use elastic_ops.Prelude.{
  ℕ, ◌+◌, ◌≤◌, ◌<◌, String, Bool, true, false, ◌&&◌, Option, none, some, List, [], ◌∷◌, ◌≡◌, inl,
  inr, refl, sym, ◌∙◌, arith, if◌then◌else◌, any, Bool-cases,
}
use elastic_ops.Api.Jobs.{Job}
use elastic_ops.Backend.Jobs.{
  in_cluster, in_flight, takes, busy_indexes, enqueue, ClusterRow, rows_after, execute_all,
  writable_or,
}

abbrev pub is_flight : ℕ → String → Job → Bool
is_flight c name j = in_cluster c j && in_flight j && str_eq name j.index_name

abbrev pub one : Bool → ℕ
one b = if b then 1 else 0

unfoldable pub flights : ℕ → String → List Job → ℕ
flights c name [] = 0
flights c name (j ∷ js) = one (is_flight c name j) + flights c name js

abbrev holds : List String → String → Bool
holds busy name = any (λ b. str_eq b name) busy

flight_busy :
    (c : ℕ) (name : String) (rows : List Job)
    → 0 < flights c name rows
    → holds (busy_indexes c rows) name ≡ true
unfolding flights busy_indexes
flight_busy c name [] h = absurd (omega arith)
flight_busy c name (j ∷ js) h =
    ground (arith, flight_busy c name js, eq_iff name j.index_name, eq_iff j.index_name name)

-- A job that the loop takes is approved, so not in flight, and its index is not busy.
taken :
    (c : ℕ) (busy : List String) (j : Job)
    → takes c busy j ≡ true
    → (in_cluster c j ≡ true) × (in_flight j ≡ false) × (holds busy j.index_name ≡ false)
taken c busy j h =
    let approved : j.status ≡ "approved" = (eq_iff j.status "approved").0 (ground arith) in
    (ground arith, rw approved refl, ground arith)

holds_other :
    (busy : List String) (name other : String)
    → holds busy name ≡ true
    → holds busy other ≡ false
    → str_eq name other ≡ false
holds_other busy name other h k = elim (Bool-cases (str_eq name other)) [
  | inl e ↦
      let same : name ≡ other = (eq_iff name other).0 e in
      let clash : true ≡ false = sym (rw same at h) ∙ k in cc
  | inr e ↦ e
]

enqueue_busy :
    (c : ℕ) (now name : String) (busy : List String) (rows : List Job)
    → holds busy name ≡ true
    → flights c name (enqueue c now busy rows) ≡ flights c name rows
unfolding flights enqueue
enqueue_busy c now name busy [] h = refl
enqueue_busy c now name busy (j ∷ js) h = elim (Bool-cases (takes c busy j)) [
  | inl e ↦
      let (inside, idle, free) = taken c busy j e in
      rw (e, inside, idle, holds_other busy name j.index_name h free)
        (omega (arith, enqueue_busy c now name (j.index_name ∷ busy) js (ground arith)))
  | inr e ↦ rw (e, enqueue_busy c now name busy js h) refl
]

enqueue_free :
    (c : ℕ) (now name : String) (busy : List String) (rows : List Job)
    → flights c name rows ≡ 0
    → flights c name (enqueue c now busy rows) ≤ 1
unfolding flights enqueue
enqueue_free c now name busy [] h = omega arith
enqueue_free c now name busy (j ∷ js) h =
    let tail : flights c name js ≡ 0 = omega arith in
    elim (Bool-cases (takes c busy j)) [
      | inl e ↦ elim (Bool-cases (str_eq name j.index_name)) [
        | inl same ↦
            let there : holds (j.index_name ∷ busy) name ≡ true =
              ground (arith, eq_iff name j.index_name, eq_iff j.index_name name) in
            rw (e, enqueue_busy c now name (j.index_name ∷ busy) js there, tail) (ground arith)
        | inr other ↦
            rw (e, other) (ground (arith, enqueue_free c now name (j.index_name ∷ busy) js tail))
      ]
      | inr e ↦ rw e (omega (arith, enqueue_free c now name busy js tail))
    ]

enqueue_gate :
    (c : ℕ) (now name : String) (rows : List Job)
    → flights c name rows ≤ 1
    → flights c name (enqueue c now (busy_indexes c rows) rows) ≤ 1
enqueue_gate c now name rows h = elim (dec_lt 0 (flights c name rows)) [
  | yes some_flight ↦ omega (
    arith,
    enqueue_busy c now name (busy_indexes c rows) rows (flight_busy c name rows some_flight),
  )
  | no none_flight ↦ enqueue_free c now name (busy_indexes c rows) rows (omega arith)
]

-- "Execute All" starts no second job on an index: where at most one job of the cluster on an index is queued or
-- executing, so it is after the request, whether the cluster is there, inactive, read-only or writable.
pub one_flight :
    (cluster : Option ClusterRow) (c : ℕ) (now name : String) (rows : List Job)
    → flights c name rows ≤ 1
    → flights c name (rows_after rows (execute_all cluster now c rows)) ≤ 1
unfolding execute_all writable_or
one_flight none c now name rows h = h
one_flight (some row) c now name rows h = elim (Bool-cases row.is_active) [
  | inl active ↦ elim (Bool-cases row.read_only) [
    | inl locked ↦ rw (active, locked) h
    | inr writable ↦ rw (active, writable) (enqueue_gate c now name rows h)
  ]
  | inr inactive ↦ rw inactive h
]
