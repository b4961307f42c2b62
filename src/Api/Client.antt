-- ===== src/Api/Client.antt =====
-- frontend/src/api/client.ts: `apiFetch`, which adds the token, ends the session on a 401 and turns
-- error responses into `ApiError`. The network is a parameter. `localStorage` is passed through.
pub mod Laws
use Prim.Native.String.{◌++◌}
use text.Mathlib.Text.{◌==◌ as str_eq}
use elastic_ops.Prelude.{
  ℕ, ◌==◌, leb, ltb, String, Bool, true, false, not, ◌&&◌, Option, none, some, List, [], ◌∷◌,
  if◌then◌else◌, get_or,
}
use elastic_ops.Prelude.Text.{includes, truthy}
use elastic_ops.Api.Json.{Json, str, Access, value, undefined, type_error, null, property}
use elastic_ops.Api.Storage.{Storage, get_item, set_item, remove_item}

-- What is thrown: `ApiError(status, detail)`, whose detail is whatever the body holds; another
-- `Error` with its message; or a value that is no `Error`.
pub data Failure : Type 0 where
  api_error : ℕ → Json → Failure
  error : String → Failure
  other : Failure

pub data Result {ℓ} (A : Type ℓ) : Type ℓ where
  ok : A → Result A
  throw : Failure → Result A

pub record Init : Type 0 where
  pub method : String
  pub headers : List (String × String)
  pub body : Option String

pub record Request : Type 0 where
  pub path : String
  pub init : Init

-- `json` is `none` where the body is no JSON text.
pub record Response : Type 0 where
  pub status : ℕ
  pub status_text : String
  pub json : Option Json

-- A fetch that fails rejects with an error.
pub data Reply : Type 0 where
  network_error : String → Reply
  responded : Response → Reply

pub data WindowEvent : Type 0 where
  unauthorized : WindowEvent

pub record Fetched : Type 0 where
  pub result : Result Json
  pub storage : Storage
  pub dispatched : List WindowEvent

abbrev pub token_key : String
token_key = "eo_token"

-- `response.ok`
abbrev is_ok : ℕ → Bool
is_ok status = leb 200 status && leb status 299

unfoldable pub get_error_message : Failure → String → Json
get_error_message (api_error status detail) fallback = detail
get_error_message (error message) fallback = str message
get_error_message other fallback = str fallback

add_headers : List (String × String) → List (String × String) → List (String × String)
add_headers [] out = out
add_headers ((k, v) ∷ rest) out = add_headers rest (set_item k v out)

authorize : Option String → List (String × String) → List (String × String)
authorize none out = out
authorize (some t) out = if truthy t then set_item "Authorization" ("Bearer " ++ t) out else out

-- `{ "Content-Type": …, ...headers }`, then `headers["Authorization"] = …`
with_headers : Option String → Init → Init
unfolding add_headers authorize
with_headers token init = record init {
  headers = authorize token (add_headers init.headers (("Content-Type", "application/json") ∷ []));
}

-- The request that goes out.
pub outgoing : String → Init → Storage → Request
unfolding with_headers
outgoing path init storage = record {
  path = path;
  init = with_headers (get_item token_key storage) init;
}

-- The messages of the errors that the runtime itself throws.
pub record Runtime : Type 0 where
  pub null_property : String
  pub bad_json : String

-- `fetch(path, { ...init, headers })` and what follows it. `new ApiError(…)` is thrown with the
-- detail as it stands in the body.
module _ (runtime : Runtime) (fetch : Request → Reply) where
  -- `throw new ApiError(status, body.detail ?? statusText)`
  throw_detail : ℕ → Access → String → Failure
  throw_detail status type_error text = error runtime.null_property
  throw_detail status undefined text = api_error status (str text)
  throw_detail status (value null) text = api_error status (str text)
  throw_detail status (value v) text = api_error status v

  read_error : Response → Failure
  unfolding throw_detail
  read_error r = elim r.json [
    | none ↦ api_error r.status (str r.status_text)
    | some body ↦ throw_detail r.status (property "detail" body) r.status_text
  ]

  read_body : Option Json → Result Json
  read_body none = throw (error runtime.bad_json)
  read_body (some body) = ok body

  receive : String → Storage → Reply → Fetched
  unfolding read_error read_body
  receive path storage (network_error message) = record {
    result = throw (error message);
    storage = storage;
    dispatched = [];
  }
  receive path storage (responded r) =
      if r.status == 401 && not (includes path "/api/auth/")
      then record {
        result = throw (api_error 401 (str "Session expired"));
        storage = remove_item token_key storage;
        dispatched = unauthorized ∷ [];
      }
      else if not (is_ok r.status)
      then record { result = throw (read_error r); storage = storage; dispatched = [] }
      else record { result = read_body r.json; storage = storage; dispatched = [] }

  unfoldable pub api_fetch : String → Init → Storage → Fetched
  unfolding receive outgoing
  api_fetch path init storage = receive path storage (fetch (outgoing path init storage))
