-- ===== src/Rest.antt =====
-- frontend/src/pages/Rest.tsx and api/rest.ts: the REST console. `JSON.parse` is a parameter. A click
-- on a control that is disabled or not shown does nothing. `sent` records the calls of the proxy.
pub mod Laws
use text.Mathlib.Text.{◌==◌ as str_eq}
use elastic_ops.Prelude.{
  ℕ, String, Bool, true, false, not, ◌&&◌, ◌||◌, Option, none, some, List, [], ◌∷◌, if◌then◌else◌,
  any,
}
use elastic_ops.Prelude.Text.{truthy, trim}
use elastic_ops.Api.Json.{Json}
use elastic_ops.Api.Client.{Failure, Result, ok, throw, error}
use elastic_ops.Api.Mutation.{Mutation, idle, pending, is_pending, settled}

abbrev pub methods : List String
methods = "GET" ∷ "POST" ∷ "PUT" ∷ "DELETE" ∷ []

pub record Preset : Type 0 where
  pub label : String
  pub method : String
  pub path : String

abbrev pub presets : List Preset
presets =
    record { label = "Cluster Health"; method = "GET"; path = "/_cluster/health" }
    ∷ record { label = "Cat Indices"; method = "GET"; path = "/_cat/indices?format=json&bytes=b" }
    ∷ record { label = "Cat Nodes"; method = "GET"; path = "/_cat/nodes?format=json" }
    ∷ record { label = "Cat Shards"; method = "GET"; path = "/_cat/shards?format=json&bytes=b" }
    ∷ record {
      label = "Cluster Settings";
      method = "GET";
      path = "/_cluster/settings?flat_settings=true";
    }
    ∷ []

pub record Sent : Type 0 where
  pub method : String
  pub path : String
  pub body : String

pub record State : Type 0 where
  pub method : String
  pub path : String
  pub body : String
  pub proxy : Mutation
  pub sent : List Sent

unfoldable pub initial : State
initial = record { method = "GET"; path = "/_cluster/health"; body = ""; proxy = idle; sent = [] }

abbrev pub is_read_verb : String → Bool
is_read_verb method = str_eq method "GET" || str_eq method "HEAD"

-- The first argument is `!!activeCluster.read_only`.
unfoldable pub write_blocked : Bool → State → Bool
write_blocked read_only s = read_only && not (is_read_verb s.method)

unfoldable pub handle_submit : Bool → State → State
unfolding write_blocked
handle_submit read_only s = if write_blocked read_only s then s else record s {
  proxy = pending;
  sent = record { method = s.method; path = s.path; body = s.body } ∷ s.sent;
}

unfoldable pub handle_preset : Preset → State → State
handle_preset preset s = record s { method = preset.method; path = preset.path; body = "" }

-- The body editor is shown for POST and PUT.
abbrev pub shows_body : State → Bool
shows_body s = str_eq s.method "POST" || str_eq s.method "PUT"

pub data Event : Type 0 where
  selects_method edits_path edits_body : String → Event
  selects_preset : Preset → Event
  presses_enter clicks_send : Event
  proxy_done : Result Json → Event

-- The Enter key calls `handleSubmit` as it is; only the button is disabled while a call is pending.
unfoldable pub step : Bool → Event → State → State
unfolding handle_submit handle_preset write_blocked
step read_only (selects_method m) s =
    if any (λ n. str_eq n m) methods then record s { method = m } else s
step read_only (edits_path p) s = record s { path = p }
step read_only (edits_body b) s = if shows_body s then record s { body = b } else s
step read_only (selects_preset p) s = handle_preset p s
step read_only presses_enter s = handle_submit read_only s
step read_only clicks_send s =
    if is_pending s.proxy || write_blocked read_only s then s else handle_submit read_only s
step read_only (proxy_done r) s = if is_pending s.proxy then record s { proxy = settled r } else s

unfoldable pub run : Bool → List Event → State → State
run read_only [] s = s
run read_only (e ∷ es) s = run read_only es (step read_only e s)

-- `useRestProxy`: what the body of a call becomes. `parse` gives the value or the message of the
-- `SyntaxError` that `JSON.parse` throws, which rejects the call before it is sent.
pub data Parsed : Type 0 where
  no_body : Parsed
  body_value : Json → Parsed
  syntax_error : String → Parsed

pub data Parse : Type 0 where
  parsed : Json → Parse
  fails : String → Parse

unfoldable pub parse_body : (String → Parse) → String → Parsed
parse_body parse text =
    if truthy text && truthy (trim text)
    then elim (parse text) [ parsed j ↦ body_value j | fails message ↦ syntax_error message ]
    else no_body
