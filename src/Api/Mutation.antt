-- ===== src/Api/Mutation.antt =====
-- The contract of a mutation hook of react-query, as the components rely on it: pending from
-- `mutate` until the call settles, and back to idle on `reset`, which also drops the callbacks of a
-- call in flight. `A` is the value that the call returns.
use elastic_ops.Prelude.{Bool, true, false}
use elastic_ops.Api.Client.{Failure, Result, ok, throw}

pub data Mutation : Type 0 where
  idle pending succeeded : Mutation
  failed : Failure → Mutation

abbrev pub is_pending : Mutation → Bool
is_pending pending = true
is_pending _ = false

abbrev pub is_error : Mutation → Bool
is_error (failed f) = true
is_error _ = false

-- The state once the call has settled.
abbrev pub settled : {A : Type 0} → Result A → Mutation
settled (ok a) = succeeded
settled (throw f) = failed f
