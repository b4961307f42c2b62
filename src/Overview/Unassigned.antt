-- ===== src/Overview/Unassigned.antt =====
-- `UnassignedPanel` and `ExplainDialog` of frontend/src/pages/Overview.tsx. A click on a control that
-- is disabled or not shown does nothing. `sent` counts the calls of the retry.
pub mod Laws
use text.Mathlib.Text.{◌==◌ as str_eq}
use elastic_ops.Prelude.{
  ℕ, ◌+◌, String, Bool, true, false, not, ◌&&◌, Option, none, some, List, [], ◌∷◌, if◌then◌else◌,
}
use elastic_ops.Api.Json.{Json, str, Access, value, undefined, type_error, property}
use elastic_ops.Api.Client.{Failure, Result, ok, throw, api_error}
use elastic_ops.Api.Es.{UnassignedShard}
use elastic_ops.Api.Mutation.{Mutation, idle, pending, is_pending, settled}

pub record State : Type 0 where
  pub explain_row : Option UnassignedShard
  pub confirming_retry : Bool
  pub retry_error : Option Json
  pub retry_success : Bool
  pub retry : Mutation
  pub sent : ℕ

unfoldable pub initial : State
initial = record {
  explain_row = none;
  confirming_retry = false;
  retry_error = none;
  retry_success = false;
  retry = idle;
  sent = 0;
}

-- `err instanceof ApiError ? err.detail : fallback`
abbrev pub detail_or : String → Failure → Json
detail_or fallback (api_error status detail) = detail
detail_or fallback _ = str fallback

unfoldable pub handle_retry : State → State
handle_retry s = record s {
  retry_error = none;
  retry_success = false;
  retry = pending;
  sent = s.sent + 1;
}

unfoldable pub retry_settles : Result Json → State → State
retry_settles (ok j) s = record s {
  retry = settled (ok j);
  confirming_retry = false;
  retry_success = true;
}
retry_settles (throw f) s = record s {
  retry = settled {A = Json} (throw f);
  confirming_retry = false;
  retry_error = some (detail_or "Retry failed" f);
}

pub data Event : Type 0 where
  arms confirms cancels closes : Event
  explains : UnassignedShard → Event
  retry_done : Result Json → Event

-- The first argument is `readOnly`, under which the buttons of the retry are not shown.
unfoldable pub step : Bool → Event → State → State
unfolding handle_retry retry_settles
step read_only arms s =
    if not read_only && not s.confirming_retry
    then record s { retry_error = none; retry_success = false; confirming_retry = true }
    else s
step read_only confirms s =
    if not read_only && s.confirming_retry && not (is_pending s.retry) then handle_retry s else s
step read_only cancels s =
    if not read_only && s.confirming_retry && not (is_pending s.retry)
    then record s { confirming_retry = false }
    else s
step read_only closes s = record s { explain_row = none }
step read_only (explains row) s = record s { explain_row = some row }
step read_only (retry_done r) s = if is_pending s.retry then retry_settles r s else s

unfoldable pub run : Bool → List Event → State → State
run read_only [] s = s
run read_only (e ∷ es) s = run read_only es (step read_only e s)

-- `ExplainDialog`, which sends its call as it opens.
pub record Explained : Type 0 where
  pub explain : Mutation
  pub result : Option Json
  pub error : Option Json

unfoldable pub explain_opened : Explained
explain_opened = record { explain = pending; result = none; error = none }

-- `{ index, shard, primary }`
unfoldable pub explain_request : UnassignedShard → String × ℕ × Bool
explain_request row = (row.index, row.shard, str_eq row.prirep "p")

unfoldable pub explain_settles : Result Json → Explained → Explained
explain_settles (ok j) x = record x { explain = settled (ok j); result = some j }
explain_settles (throw f) x = record x {
  explain = settled {A = Json} (throw f);
  error = some (detail_or "Explain failed" f);
}

-- `typeof result?.explanation === "string" ? result.explanation : undefined`
unfoldable pub explanation : Option Json → Option String
explanation none = none
explanation (some j) = elim (property "explanation" j) [
  | value v ↦ text_of v
  | undefined ↦ none
  | type_error ↦ none
]
  where
    text_of : Json → Option String
    text_of (str t) = some t
    text_of _ = none
