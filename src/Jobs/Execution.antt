-- ===== src/Jobs/Execution.antt =====
-- `ExecutionTab` of frontend/src/pages/Jobs.tsx: the jobs by their status, and the calls of its buttons.
-- A click on a control that is disabled or not shown does nothing. `sent` records the calls.
use Prim.Native.String.{◌++◌}
use text.Mathlib.Text.{◌==◌ as str_eq}
use text.Mathlib.TextEquality.{eq_iff}
use elastic_ops.Prelude.{
  ℕ, ◌+◌, ltb, String, Bool, true, not, ◌&&◌, ◌||◌, Option, none, some, List, [], ◌∷◌, ◌≡◌, refl,
  arith, if◌then◌else◌, get_or, filter, find?, head?, head-filter, filter_of_find?-none, length,
  take, inl, inr, Bool-cases, Option-cases,
}
use elastic_ops.Prelude.Text.{show}
use elastic_ops.Api.Json.{Json}
use elastic_ops.Api.Client.{Result, ok, throw}
use elastic_ops.Api.Jobs.{Job, ExecuteAllResult}
use elastic_ops.Api.Mutation.{Mutation, idle, pending, is_pending, settled}
use elastic_ops.Jobs.{tier_label}

abbrev pub has_status : String → Job → Bool
has_status s j = str_eq j.status s

-- `jobs?.filter((j) => j.status === …) ?? []`
unfoldable pub with_status : String → Option (List Job) → List Job
with_status s jobs = filter (has_status s) (get_or jobs [])

pub data Call : Type 0 where
  execute_call : ℕ → Call
  execute_all_call clear_queue_call clear_history_call : Call

pub record State : Type 0 where
  pub jobs : Option (List Job)
  pub execute_all_msg : Option String
  pub execute : Mutation
  pub execute_all : Mutation
  pub clear_queue : Mutation
  pub clear_history : Mutation
  pub sent : List Call

unfoldable pub initial : State
initial = record {
  jobs = none;
  execute_all_msg = none;
  execute = idle;
  execute_all = idle;
  clear_queue = idle;
  clear_history = idle;
  sent = [];
}

-- What each list shows of its jobs.
unfoldable pub listed : String → Option (List Job) → List Job
unfolding with_status
listed s jobs =
    let all = with_status s jobs in
    if str_eq s "approved" || str_eq s "queued"
    then take 50 all
    else if str_eq s "completed"
    then take 10 all
    else all

-- `Running (n/cap)`
unfoldable pub running_title : ℕ → Option ℕ → String
running_title n none = "Running (" ++ show n ++ ")"
running_title n (some cap) = "Running (" ++ show n ++ "/" ++ show cap ++ ")"

-- The label of a job's tier in the queue, absent for an operator's job.
unfoldable pub tier_mark : Job → Option String
tier_mark j = if ltb 0 j.tier then some (tier_label_or j.tier) else none
  where
    tier_label_or : ℕ → String
    tier_label_or t = if ltb 4 t then "T" ++ show t else tier_label t

unfoldable pub skipped_message : ExecuteAllResult → Option String
skipped_message r =
    if ltb 0 r.skipped
    then some ("Queued " ++ show r.queued ++ " · " ++ show r.skipped ++ " skipped (index busy)")
    else none

pub data Event : Type 0 where
  jobs_arrive : List Job → Event
  executes_next executes_all clears_queue clears_history : Event
  execute_done clear_queue_done clear_history_done : Result Json → Event
  execute_all_done : Result ExecuteAllResult → Event

abbrev pub shows_queue : State → Bool
shows_queue s = ltb 0 (length (filter (has_status "approved") (get_or s.jobs [])))

abbrev shows_waiting : State → Bool
shows_waiting s = ltb 0 (length (filter (has_status "queued") (get_or s.jobs [])))

abbrev shows_history : State → Bool
shows_history s =
    ltb 0 (length (filter (has_status "completed") (get_or s.jobs [])))
    || ltb 0 (length (filter (has_status "failed") (get_or s.jobs [])))

-- `if (approved[0]) execute.mutate(approved[0].id)`
abbrev start : Option Job → State → State
start none s = s
start (some job) s = record s { execute = pending; sent = execute_call job.id ∷ s.sent }

unfoldable pub execute_next : State → State
unfolding with_status
execute_next s = start (head? (with_status "approved" s.jobs)) s

unfoldable pub execute_all_settles : Result ExecuteAllResult → State → State
unfolding skipped_message
execute_all_settles (ok r) s = record s {
  execute_all = settled (ok r);
  execute_all_msg = skipped_message r;
}
execute_all_settles (throw f) s = record s {
  execute_all = settled {A = ExecuteAllResult} (throw f);
}

unfoldable pub step : Event → State → State
unfolding execute_next execute_all_settles
step (jobs_arrive l) s = record s { jobs = some l }
step executes_next s = if shows_queue s && not (is_pending s.execute) then execute_next s else s
step executes_all s =
    if shows_queue s && not (is_pending s.execute_all)
    then record s {
      execute_all_msg = none;
      execute_all = pending;
      sent = execute_all_call ∷ s.sent;
    }
    else s
step clears_queue s =
    if (shows_queue s || shows_waiting s) && not (is_pending s.clear_queue)
    then record s { clear_queue = pending; sent = clear_queue_call ∷ s.sent }
    else s
step clears_history s =
    if shows_history s && not (is_pending s.clear_history)
    then record s { clear_history = pending; sent = clear_history_call ∷ s.sent }
    else s
step (execute_done r) s = if is_pending s.execute then record s { execute = settled r } else s
step (clear_queue_done r) s =
    if is_pending s.clear_queue then record s { clear_queue = settled r } else s
step (clear_history_done r) s =
    if is_pending s.clear_history then record s { clear_history = settled r } else s
step (execute_all_done r) s = if is_pending s.execute_all then execute_all_settles r s else s

abbrev pub sent_by_next : State → Option Job → List Call
sent_by_next s none = s.sent
sent_by_next s (some job) = if is_pending s.execute then s.sent else execute_call job.id ∷ s.sent

pub filter-some :
    (p : Job → Bool) (l : List Job) {j : Job}
    → find? p l ≡ some j
    → ltb 0 (length (filter p l)) ≡ true
filter-some p [] h = cc
filter-some p (j ∷ l) h = elim (Bool-cases (p j)) [
  | inl e ↦ rw e (ground arith)
  | inr e ↦ rw e (filter-some p l (rw e at h))
]

-- "Execute Next" executes the first job of the backend's list that is approved, if there is one and no
-- such call is pending, and nothing otherwise.
pub executes_first_approved :
    (s : State)
    → (step executes_next s).sent
      ≡ sent_by_next s (find? (has_status "approved") (get_or s.jobs []))
unfolding step with_status execute_next
executes_first_approved s =
    let approved = get_or s.jobs [] in
    elim (Option-cases (find? (has_status "approved") approved)) [
      | inl e ↦ rw (filter_of_find?-none (has_status "approved") approved e, e) refl
      | inr (job, e) ↦
          rw
            (
              filter-some (has_status "approved") approved e,
              head-filter (has_status "approved") approved,
              e,
            )
            (elim (Bool-cases (is_pending s.execute)) [ inl p ↦ rw p refl | inr p ↦ rw p refl ])
    ]

-- The jobs of no list of the tab.
abbrev pub is_elsewhere : Job → Bool
is_elsewhere j = not (
    has_status "approved" j
    || has_status "queued" j
    || has_status "executing" j
    || has_status "completed" j
    || has_status "failed" j)

abbrev one : Bool → ℕ
one b = if b then 1 else 0

count_cons :
    (p : Job → Bool) (j : Job) (l : List Job)
    → length (filter p (j ∷ l)) ≡ one (p j) + length (filter p l)
count_cons p j l = ground arith

in_one_list :
    (j : Job)
    → one (has_status "approved" j)
        + one (has_status "queued" j)
        + one (has_status "executing" j)
        + one (has_status "completed" j)
        + one (has_status "failed" j)
        + one (is_elsewhere j)
      ≡ 1
in_one_list j = elim (Bool-cases (str_eq j.status "approved")) [
  | inl e ↦ rw ((eq_iff j.status "approved").0 e) refl
  | inr a ↦ elim (Bool-cases (str_eq j.status "queued")) [
    | inl e ↦ rw ((eq_iff j.status "queued").0 e) refl
    | inr b ↦ elim (Bool-cases (str_eq j.status "executing")) [
      | inl e ↦ rw ((eq_iff j.status "executing").0 e) refl
      | inr c ↦ elim (Bool-cases (str_eq j.status "completed")) [
        | inl e ↦ rw ((eq_iff j.status "completed").0 e) refl
        | inr d ↦ rw (a, b, c, d) (ground arith)
      ]
    ]
  ]
]

pub counts_add :
    (l : List Job)
    → length (filter (has_status "approved") l)
        + length (filter (has_status "queued") l)
        + length (filter (has_status "executing") l)
        + length (filter (has_status "completed") l)
        + length (filter (has_status "failed") l)
        + length (filter is_elsewhere l)
      ≡ length l
counts_add [] = omega arith
counts_add (j ∷ l) = omega (
  arith,
  count_cons (has_status "approved") j l,
  count_cons (has_status "queued") j l,
  count_cons (has_status "executing") j l,
  count_cons (has_status "completed") j l,
  count_cons (has_status "failed") j l,
  count_cons is_elsewhere j l,
  in_one_list j,
  counts_add l,
)

-- Every job stands in exactly one of the five lists of the tab, or in none where its status is none of
-- the five.
pub execution_lists :
    (l : List Job)
    → length (with_status "approved" (some l))
        + length (with_status "queued" (some l))
        + length (with_status "executing" (some l))
        + length (with_status "completed" (some l))
        + length (with_status "failed" (some l))
        + length (filter is_elsewhere l)
      ≡ length l
unfolding with_status
execution_lists l = counts_add l
