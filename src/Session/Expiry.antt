-- ===== src/Session/Expiry.antt =====
-- From a 401 to the login page: `apiFetch` (api/client.ts), the session (context/AuthContext.tsx) and the routes
-- (App.tsx) together, for the queries of the snapshots.
use Prim.Native.String.{◌++◌}
use text.Mathlib.TextLemmas.{cons-append, nil-append}
use elastic_ops.Prelude.{
  ℕ, String, Bool, true, false, ◌||◌, none, some, List, [], ◌∷◌, ◌++◌ as append, ◌≡◌, ◌≢◌, refl,
  arith, ◌∙◌,
}
use elastic_ops.Prelude.Text.{truthy, show, codes, includes, is_prefix, is_infix, all_digits}
use elastic_ops.Api.Storage.{get_item}
use elastic_ops.Api.Client.{Init, Request, Response, Reply, responded, Runtime, token_key, outgoing}
use elastic_ops.Api.Client.Laws.{EndsSession}
use elastic_ops.Api.Queries.{EsQuery, health, analyze, use_es, es_suffix}
use elastic_ops.Session.{Session, call, is_authenticated}
use elastic_ops.Session.Laws.{call_signs_out}
use elastic_ops.Routes.{Gate, Route, shows, root, setup, login, page, settle, setup_required}
use elastic_ops.Routes.Laws.{shown, settle_total}
use elastic_ops.Prelude.Show.{truthy-show, all_digits-show}

codes-append : (s t : String) → codes (s ++ t) ≡ append (codes s) (codes t)
codes-append String.[] t = rw (nil-append t) refl
codes-append (String.◌∷◌ c s) t = rw (cons-append c s t, codes-append s t) refl

abbrev auth : List ℕ
auth = codes "/api/auth/"

skip_digits :
    (ds rest : List ℕ) → all_digits ds ≡ true → is_infix auth (append ds rest) ≡ is_infix auth rest
skip_digits [] rest h = refl
skip_digits (d ∷ ds) rest h = ground (arith, skip_digits ds rest)

-- A path below a cluster, whose rest does not hold "/api/auth/", does not hold it.
no_digit_starts :
    (s : String) (rest : List ℕ)
    → truthy s ≡ true
    → all_digits (codes s) ≡ true
    → is_prefix (codes "api/auth/") (append (codes s) rest) ≡ false
no_digit_starts String.[] rest t h = cc
no_digit_starts (String.◌∷◌ c s) rest t h = ground arith

or_false : (a b : Bool) → a ≡ false → b ≡ false → (a || b) ≡ false
or_false a b h k = rw (h, k) refl

outside_auth :
    (c : ℕ) (rest : String)
    → is_infix auth (codes rest) ≡ false
    → includes ("/api/clusters/" ++ show c ++ rest) "/api/auth/" ≡ false
outside_auth c rest h =
    rw (codes-append "/api/clusters/" (show c ++ rest), codes-append (show c) rest)
      (or_false (is_prefix (codes "api/auth/") (append (codes (show c)) (codes rest)))
        (is_infix auth (append (codes (show c)) (codes rest)))
        (no_digit_starts (show c) (codes rest) (truthy-show c) (all_digits-show c))
        (skip_digits (codes (show c)) (codes rest) (all_digits-show c) ∙ h))

es_outside : (e : EsQuery) → is_infix auth (codes ("/es" ++ es_suffix e)) ≡ false
unfolding es_suffix
es_outside (analyze true) = refl
es_outside (analyze false) = refl
es_outside health = refl
es_outside _ = refl

some_inj : {a b : String} → some a ≡ some b → a ≡ b
some_inj h = cc

login_shown :
    (at : Route) → at ≢ shows setup → some (shown false false false at) ≡ some (page login)
login_shown (shows setup) h = absurd (h refl)
login_shown (shows login) h = refl
login_shown root h = refl
login_shown (shows _) h = refl

-- When the backend answers a snapshot query of any page with 401, the tab is signed out and, once the status has
-- loaded and asks for no setup, every route but Setup shows the login form.
pub expired_query_shows_login :
    (runtime : Runtime) (fetch : Request → Reply) (init : Init) (s : Session) (e : EsQuery)
    (c refresh : ℕ) (path : String) (r : Response) (g : Gate) (at : Route)
    → (use_es e (some c) refresh).path ≡ some path
    → fetch (outgoing path init s.storage) ≡ responded r
    → r.status ≡ 401
    → g.is_loading ≡ false
    → setup_required g.status ≡ false
    → g.is_authenticated ≡ is_authenticated (call runtime fetch path init s)
    → at ≢ shows setup
    → (get_item token_key (call runtime fetch path init s).storage ≡ none)
      × (settle 2 g at ≡ some (page login))
unfolding use_es
expired_query_shows_login runtime fetch init s e c refresh path r g at q answer expired loaded ready
      gate elsewhere =
    let here : "/api/clusters/" ++ show c ++ "/es" ++ es_suffix e ≡ path = some_inj q in
    let outside : includes path "/api/auth/" ≡ false =
      rw (← here) (outside_auth c ("/es" ++ es_suffix e) (es_outside e)) in
    let ends : EndsSession path (fetch (outgoing path init s.storage)) =
      rw answer (expired, outside) in
    let (out, cleared) = call_signs_out runtime fetch path init s ends in
    (cleared, rw (settle_total 0 g at, loaded, ready, gate, out) (login_shown at elsewhere))
