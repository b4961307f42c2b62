-- ===== src/Examples/Session.antt =====
-- `apiFetch`, the session and the routes on concrete calls.

use elastic_ops.Prelude.{
  ℕ, ◌≤◌, String, true, false, none, some, [], ◌∷◌, ◌≡◌, ◌↔◌, ◌⊎◌, refl, arith,
}
use elastic_ops.Api.Json.{Json, str, obj, field, end}
use elastic_ops.Api.Storage.{Storage, get_item}
use elastic_ops.Api.Client.{
  Init, Request, Response, Reply, responded, Runtime, ok, token_key, outgoing,
}
use elastic_ops.Api.Client.Laws.{reply, fetched, bearer, api_fetch_ok_iff, outgoing_authorization}
use elastic_ops.Session.{Session, load, set_token, call, signs_in, calls, Reach, here, next}
use elastic_ops.Session.Laws.{InSync, Reach-InSync}
use elastic_ops.Routes.{
  Gate, indices, setup, login, shows, root, page, settle, setup_required, overview,
}
use elastic_ops.Routes.Laws.{shown, settle_total, page_shown_iff}

abbrev pub runtime : Runtime
runtime = record { null_property = "null"; bad_json = "bad" }

abbrev pub body : Json
body = obj (field "detail" (str "Forbidden") end)

abbrev pub answers : ℕ → Request → Reply
answers status request = responded (record { status = status; status_text = "-"; json = some body })

abbrev pub get : Init
get = record { method = "GET"; headers = []; body = none }

abbrev pub signed_in : Storage
signed_in = ("eo_token", "t") ∷ ("eo_cluster", "3") ∷ []

abbrev path : String
path = "/api/jobs"

api_fetch_ok_iff_example : ((fetched runtime (answers 200) path get signed_in).result ≡ ok body) ↔ (
    (r : Response) × (reply runtime (answers 200) path get signed_in ≡ responded r)
    × (200 ≤ r.status)
    × (r.status ≤ 299)
    × (r.json ≡ some body))
api_fetch_ok_iff_example = api_fetch_ok_iff runtime (answers 200) path get signed_in body

no_header : get_item "Authorization" get.headers ≡ none
unfolding get_item
no_header = refl

outgoing_authorization_example :
    (get_item "Authorization" (outgoing path get signed_in).init.headers
      ≡ bearer (get_item token_key signed_in))
    × ((outgoing path get signed_in).path ≡ path)
    × ((outgoing path get signed_in).init.method ≡ "GET")
    × ((outgoing path get signed_in).init.body ≡ none)
outgoing_authorization_example = outgoing_authorization path get signed_in no_header

abbrev tab : Session
tab = set_token (some "u") (load signed_in)

signs_in_and_calls : Reach runtime (load signed_in) (call runtime (answers 401) path get tab)
signs_in_and_calls = next (next here (signs_in "u" refl)) (calls (answers 401) path get)

Reach-InSync_example : InSync (call runtime (answers 401) path get tab)
Reach-InSync_example = Reach-InSync signed_in signs_in_and_calls

abbrev gate : Gate
gate = record { is_loading = false; status = none; is_authenticated = true }

settle_total_example :
    settle 2 gate root
    ≡ some (shown gate.is_loading (setup_required gate.status) gate.is_authenticated root)
settle_total_example = settle_total 0 gate root

is_private : ¬ ((indices ≡ setup) ⊎ (indices ≡ login))
is_private h = ground arith

page_shown_iff_example : (settle 2 gate (shows indices) ≡ some (page indices)) ↔ (
    (gate.is_loading ≡ false)
    × (setup_required gate.status ≡ false)
    × (gate.is_authenticated ≡ true)
    × ((shows indices ≡ shows indices) ⊎ ((shows indices ≡ root) × (indices ≡ overview))))
page_shown_iff_example = page_shown_iff 0 gate (shows indices) indices is_private
