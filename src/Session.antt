-- ===== src/Session.antt =====
-- frontend/src/context/AuthContext.tsx: the token in memory beside the one in `localStorage`, and
-- what signs in and out: the forms, the account menu and the unauthorized event of `apiFetch`.
pub mod Laws
pub mod Expiry
use text.Mathlib.Text.{◌==◌ as str_eq}
use elastic_ops.Prelude.{
  ℕ, String, Bool, true, false, Option, none, some, List, [], ◌∷◌, if◌then◌else◌, is_some, ◌≡◌,
}
use elastic_ops.Prelude.Text.{truthy}
use elastic_ops.Api.Storage.{Storage, get_item, set_item, remove_item}
use elastic_ops.Api.Client.{
  Init, Request, Reply, WindowEvent, unauthorized, Fetched, token_key, Runtime, api_fetch,
}

-- `UserInfo` of api/auth.ts
pub record UserInfo : Type 0 where
  pub id : ℕ
  pub email : String
  pub name : String
  pub role : String
  pub is_active : Bool

pub record Session : Type 0 where
  pub token : Option String
  pub storage : Storage

-- A page load: the state starts from the stored token.
unfoldable pub load : Storage → Session
load storage = record { token = get_item token_key storage; storage = storage }

store_token : Option String → Storage → Storage
store_token none storage = remove_item token_key storage
store_token (some t) storage =
    if truthy t then set_item token_key t storage else remove_item token_key storage

unfoldable pub set_token : Option String → Session → Session
unfolding store_token
set_token t s = record { token = t; storage = store_token t s.storage }

unfoldable pub logout : Session → Session
unfolding set_token
logout s = set_token none s

-- `handleUnauthorized`, for each event in turn.
unfoldable pub handle : List WindowEvent → Session → Session
unfolding set_token
handle [] s = s
handle (unauthorized ∷ es) s = handle es (set_token none s)

abbrev pub is_authenticated : Session → Bool
is_authenticated s = is_some s.token

abbrev pub is_admin : Option UserInfo → Bool
is_admin none = false
is_admin (some u) = str_eq u.role "admin"

-- A call of `apiFetch` by the app, with the event handled as it is dispatched.
unfoldable pub call : Runtime → (Request → Reply) → String → Init → Session → Session
unfolding handle
call runtime fetch path init s =
    let fetched = api_fetch runtime fetch path init s.storage in
    handle fetched.dispatched (record s { storage = fetched.storage })

-- What happens to the session of one tab: a sign-in with the token that the backend returned, a
-- logout, a call, a reload of the page.
pub data Step (runtime : Runtime) : Session → Session → Type 0 where
  signs_in : {s : Session} (t : String) → truthy t ≡ true → Step runtime s (set_token (some t) s)
  logs_out : {s : Session} → Step runtime s (logout s)
  calls :
      {s : Session} (fetch : Request → Reply) (path : String) (init : Init)
      → Step runtime s (call runtime fetch path init s)
  reloads : {s : Session} → Step runtime s (load s.storage)

pub data Reach (runtime : Runtime) (s : Session) : Session → Type 0 where
  here : Reach runtime s s
  next : {t u : Session} → Reach runtime s t → Step runtime t u → Reach runtime s u
