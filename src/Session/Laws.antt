-- ===== src/Session/Laws.antt =====
-- The token in memory and the token in `localStorage` do not part.
use elastic_ops.Prelude.{String, true, false, none, some, ◌≡◌, refl}
use elastic_ops.Prelude.Text.{truthy}
use elastic_ops.Api.Storage.{Storage, get_item, get_item-set_item_self, get_item-remove_item_self}
use elastic_ops.Api.Client.{Init, Request, Reply, Runtime, token_key, outgoing}
use elastic_ops.Api.Client.Laws.{
  EndsSession, EndsSession-dec, api_fetch-EndsSession, api_fetch_keeps_session,
}
use elastic_ops.Session.{
  Session, load, set_token, logout, call, is_authenticated, Step, signs_in, logs_out, calls,
  reloads, Reach, here, next,
}

abbrev pub InSync : Session → Type 0
InSync s = get_item token_key s.storage ≡ s.token

set_token-InSync : (t : String) (s : Session) → truthy t ≡ true → InSync (set_token (some t) s)
unfolding set_token
set_token-InSync t s h = rw h (get_item-set_item_self token_key t s.storage)

logout-InSync : (s : Session) → InSync (logout s)
unfolding logout
logout-InSync s = get_item-remove_item_self token_key s.storage

module _ (runtime : Runtime) (fetch : Request → Reply) (path : String) (init : Init)
    (s : Session) where
  abbrev answer : Reply
  answer = fetch (outgoing path init s.storage)

  call-InSync : InSync s → InSync (call runtime fetch path init s)
  unfolding call set_token
  call-InSync k = elim (EndsSession-dec path answer) [
    | yes h ↦
        let (cleared, sent, failed) = api_fetch-EndsSession runtime fetch path init s.storage h in
        rw sent (get_item-remove_item_self token_key _)
    | no h ↦
        let (same, quiet) = api_fetch_keeps_session runtime fetch path init s.storage h in
        rw (quiet, same) k
  ]

Step-InSync : {runtime : Runtime} {s t : Session} → Step runtime s t → InSync s → InSync t
unfolding load
Step-InSync (signs_in {s} t h) k = set_token-InSync t s h
Step-InSync (logs_out {s}) k = logout-InSync s
Step-InSync {runtime} (calls {s} fetch path init) k = call-InSync runtime fetch path init s k
Step-InSync (reloads {s}) k = refl

-- From a page load on, over every sequence of sign-ins with a token that is not empty, logouts,
-- calls with any reply and reloads, the token in memory is the one in `localStorage`.
pub Reach-InSync :
    {runtime : Runtime} (storage : Storage) {s : Session}
    → Reach runtime (load storage) s
    → InSync s
unfolding load
Reach-InSync storage here = refl
Reach-InSync storage (next r st) = Step-InSync st (Reach-InSync storage r)

-- A 401 on a call outside "/api/auth/" signs the tab out, in memory and in `localStorage`.
pub call_signs_out :
    (runtime : Runtime) (fetch : Request → Reply) (path : String) (init : Init) (s : Session)
    → EndsSession path (fetch (outgoing path init s.storage))
    → (is_authenticated (call runtime fetch path init s) ≡ false)
      × (get_item token_key (call runtime fetch path init s).storage ≡ none)
unfolding call set_token
call_signs_out runtime fetch path init s h =
    let (cleared, sent, failed) = api_fetch-EndsSession runtime fetch path init s.storage h in
    (rw sent refl, rw sent (get_item-remove_item_self token_key _))

-- After a sign-in with the empty token the app counts as signed in, though no token is stored; a
-- reload signs it out.
pub empty_token :
    (s : Session)
    → (is_authenticated (set_token (some "") s) ≡ true)
      × (get_item token_key (set_token (some "") s).storage ≡ none)
      × (is_authenticated (load (set_token (some "") s).storage) ≡ false)
unfolding set_token load
empty_token s =
    let gone = get_item-remove_item_self token_key s.storage in (refl, gone, rw gone refl)
