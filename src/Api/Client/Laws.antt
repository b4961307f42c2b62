-- ===== src/Api/Client/Laws.antt =====
-- What `apiFetch` of frontend/src/api/client.ts does on every reply of the network.
use Prim.Native.String.{◌++◌}
use text.Mathlib.Text.{◌==◌ as str_eq}
use text.Mathlib.TextEquality.{eq_iff}
use elastic_ops.Prelude.{
  ℕ, ◌≤◌, ◌==◌, String, false, not, ◌&&◌, Option, none, some, List, [], ◌∷◌, ◌≡◌, ◌≢◌, ◌↔◌, refl,
  ◌∙◌, arith, if◌then◌else◌, Bool-cases, inl, inr,
}
use elastic_ops.Prelude.Text.{includes, truthy}
use elastic_ops.Api.Json.{Json, bool, num, str, arr, obj, null, value, property}
use elastic_ops.Api.Storage.{
  Storage, get_item, set_item, remove_item, get_item-set_item, get_item-remove_item,
  get_item-set_item_self,
}
use elastic_ops.Api.Client.{
  Failure, api_error, ok, throw, Init, Request, Response, Reply, network_error, responded,
  unauthorized, Fetched, token_key, Runtime, add_headers, authorize, outgoing, receive, read_error,
  read_body, api_fetch, throw_detail, is_ok, get_error_message,
}

-- The replies that end a session: a 401 on a path that is no part of the login itself.
abbrev pub EndsSession : String → Reply → Type 0
EndsSession path (network_error message) = ⊥
EndsSession path (responded r) = (r.status ≡ 401) × (includes path "/api/auth/" ≡ false)

pub EndsSession-dec : (path : String) (p : Reply) → Dec (EndsSession path p)
EndsSession-dec path (network_error m) = no (λ h. h)
EndsSession-dec path (responded r) =
    elim (Bool-cases (r.status == 401 && not (includes path "/api/auth/"))) [
      | inl e ↦ yes (ground arith, ground arith)
      | inr e ↦ no (λ h. ground arith)
    ]

module _ (runtime : Runtime) (fetch : Request → Reply) (path : String) (init : Init)
    (storage : Storage) where
  abbrev pub reply : Reply
  reply = fetch (outgoing path init storage)

  abbrev pub fetched : Fetched
  fetched = api_fetch runtime fetch path init storage

  -- `receive` at a reply that is named.
  receive_ends :
      (r : Reply)
      → EndsSession path r
      → ((receive runtime fetch path storage r).dispatched ≡ unauthorized ∷ [])
        × ((receive runtime fetch path storage r).storage ≡ remove_item token_key storage)
        × ((receive runtime fetch path storage r).result
            ≡ throw (api_error 401 (str "Session expired")))
  unfolding receive
  receive_ends (network_error m) h = absurd h
  receive_ends (responded r) h = (ground arith, ground arith, ground arith)

  receive_keeps :
      (r : Reply)
      → ¬ EndsSession path r
      → ((receive runtime fetch path storage r).dispatched ≡ [])
        × ((receive runtime fetch path storage r).storage ≡ storage)
  unfolding receive
  receive_keeps (network_error m) h = (refl, refl)
  receive_keeps (responded r) h =
      elim (Bool-cases (r.status == 401 && not (includes path "/api/auth/"))) [
        | inl e ↦ absurd (h (ground arith, ground arith))
        | inr e ↦ (ground arith, ground arith)
      ]

  abbrev Succeeds : Reply → Json → Type 0
  Succeeds p body =
      (r : Response) × (p ≡ responded r)
      × (200 ≤ r.status)
      × (r.status ≤ 299)
      × (r.json ≡ some body)

  read_body_ok :
      (o : Option Json) (body : Json) → read_body runtime fetch o ≡ ok body → o ≡ some body
  unfolding read_body
  read_body_ok none body h = cc
  read_body_ok (some b) body h = ground arith

  receive_ok :
      (p : Reply) (body : Json)
      → (receive runtime fetch path storage p).result ≡ ok body
      → Succeeds p body
  unfolding receive
  receive_ok (network_error m) body h = cc
  receive_ok (responded r) body h =
      (r, refl, ground arith, ground arith, read_body_ok r.json body (ground arith))

  receive_of_ok :
      (p : Reply) (body : Json)
      → Succeeds p body
      → (receive runtime fetch path storage p).result ≡ ok body
  unfolding receive read_body
  receive_of_ok (network_error m) body h = cc (h.1)
  receive_of_ok (responded r) body (r', e, low, high, j) =
      let same : r ≡ r' = ground arith in
      let low' : 200 ≤ r.status = rw same low in
      let high' : r.status ≤ 299 = rw same high in
      let j' : r.json ≡ some body = rw same j in ground arith

  -- A 401 on a path outside "/api/auth/" removes the token and no other key, dispatches the
  -- unauthorized event once and throws `ApiError(401, "Session expired")`.
  pub api_fetch-EndsSession :
      EndsSession path reply
      → ((k : String)
          → get_item k fetched.storage ≡ (if str_eq token_key k then none else get_item k storage))
        × (fetched.dispatched ≡ unauthorized ∷ [])
        × (fetched.result ≡ throw (api_error 401 (str "Session expired")))
  unfolding api_fetch
  api_fetch-EndsSession h =
      let (sent, cleared, failed) = receive_ends reply h in
      (λ k. rw cleared (get_item-remove_item token_key k storage), sent, failed)

  -- Any other reply, a failure of the network included, leaves `localStorage` as it was and
  -- dispatches nothing.
  pub api_fetch_keeps_session :
      ¬ EndsSession path reply → (fetched.storage ≡ storage) × (fetched.dispatched ≡ [])
  unfolding api_fetch
  api_fetch_keeps_session h = let (d, s) = receive_keeps reply h in (s, d)

  -- A value is returned exactly when the status is from 200 to 299 and the body is JSON, and it is
  -- that body.
  pub api_fetch_ok_iff :
      (body : Json)
      → (fetched.result ≡ ok body) ↔ (
          (r : Response) × (reply ≡ responded r)
          × (200 ≤ r.status)
          × (r.status ≤ 299)
          × (r.json ≡ some body))
  unfolding api_fetch
  api_fetch_ok_iff body = (receive_ok reply body, receive_of_ok reply body)

  throw_detail_value :
      (n : ℕ) (v : Json) (text : String)
      → v ≢ null
      → throw_detail runtime fetch n (value v) text ≡ api_error n v
  unfolding throw_detail
  throw_detail_value n null text h = absurd (h refl)
  throw_detail_value n (bool b) text h = refl
  throw_detail_value n (num t) text h = refl
  throw_detail_value n (str t) text h = refl
  throw_detail_value n (arr xs) text h = refl
  throw_detail_value n (obj fs) text h = refl

  read_error_detail :
      (r : Response) (body d : Json)
      → r.json ≡ some body
      → property "detail" body ≡ value d
      → d ≢ null
      → read_error runtime fetch r ≡ api_error r.status d
  unfolding read_error
  read_error_detail r body d j p h = rw (j, p) (throw_detail_value r.status d r.status_text h)

  receive_error :
      (r : Response)
      → ¬ EndsSession path (responded r)
      → is_ok r.status ≡ false
      → (receive runtime fetch path storage (responded r)).result
        ≡ throw (read_error runtime fetch r)
  unfolding receive
  receive_error r keeps bad =
      elim (Bool-cases (r.status == 401 && not (includes path "/api/auth/"))) [
        | inl e ↦ absurd (keeps (ground arith, ground arith))
        | inr e ↦ rw (e, bad)
      ]

  -- Of a response outside 200 to 299 that does not end the session, the error carries the status and
  -- the body's `detail`, whatever JSON value that is, and `getErrorMessage` returns this value.
  pub api_fetch_detail :
      (r : Response) (body d : Json)
      → reply ≡ responded r
      → ¬ EndsSession path reply
      → is_ok r.status ≡ false
      → r.json ≡ some body
      → property "detail" body ≡ value d
      → d ≢ null
      → (fallback : String)
      → (f : Failure) × (fetched.result ≡ throw f)
        × (f ≡ api_error r.status d)
        × (get_error_message f fallback ≡ d)
  unfolding api_fetch get_error_message
  api_fetch_detail r body d e keeps bad j p nonnull fallback =
      let failed = receive_error r (rw e at keeps) bad in
      (
        api_error r.status d,
        rw e (rw (← read_error_detail r body d j p nonnull) failed),
        refl,
        refl,
      )

get_item-add_headers :
    (k : String) (given out : List (String × String))
    → get_item k given ≡ none
    → get_item k (add_headers given out) ≡ get_item k out
unfolding get_item add_headers
get_item-add_headers k [] out h = refl
get_item-add_headers k ((j, v) ∷ rest) out h =
    ground (
      arith,
      eq_iff j k,
      get_item-add_headers k rest (set_item j v out),
      get_item-set_item j k v out,
    )

-- What the header is: absent without a token or with an empty one.
abbrev pub bearer : Option String → Option String
bearer none = none
bearer (some t) = if truthy t then some ("Bearer " ++ t) else none

get_item-authorize :
    (o : Option String) (out : List (String × String))
    → get_item "Authorization" out ≡ none
    → get_item "Authorization" (authorize o out) ≡ bearer o
unfolding authorize
get_item-authorize none out e = e
get_item-authorize (some t) out e =
    ground (arith, get_item-set_item_self "Authorization" ("Bearer " ++ t) out)

no_authorization : get_item "Authorization" (("Content-Type", "application/json") ∷ []) ≡ none
unfolding get_item
no_authorization = refl

-- A request whose caller gives no "Authorization" header carries the bearer token exactly when
-- `localStorage` holds a token that is not empty, and its path, method and body are the caller's.
pub outgoing_authorization :
    (path : String) (init : Init) (storage : Storage)
    → get_item "Authorization" init.headers ≡ none
    → (get_item "Authorization" (outgoing path init storage).init.headers
        ≡ bearer (get_item token_key storage))
      × ((outgoing path init storage).path ≡ path)
      × ((outgoing path init storage).init.method ≡ init.method)
      × ((outgoing path init storage).init.body ≡ init.body)
unfolding outgoing
outgoing_authorization path init storage h =
    let base = ("Content-Type", "application/json") ∷ [] in
    let plain : get_item "Authorization" (add_headers init.headers base) ≡ none =
      get_item-add_headers "Authorization" init.headers base h ∙ no_authorization in
    (
      get_item-authorize (get_item token_key storage) (add_headers init.headers base) plain,
      refl,
      refl,
      refl,
    )
