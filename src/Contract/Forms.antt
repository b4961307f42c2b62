-- ===== src/Contract/Forms.antt =====
-- The requests of the forms, with the bodies that they fill in, against the routes of the backend.
use Prim.Native.String.{◌++◌}
use text.Mathlib.TextLemmas.{append-nil}
use elastic_ops.Prelude.{ℕ, String, Bool, none, List, [], ◌∷◌, ◌≡◌, refl, true, arith}
use elastic_ops.Prelude.Text.{show}
use elastic_ops.Api.Json.{lookup}
use elastic_ops.Api.Bodies.{cluster_body, login_body, setup_body, password_body, invite_body}
use elastic_ops.Api.Operations.{
  naturals, AppOperation, app_request, login, setup, invite_user, change_password, create_cluster,
  delete_user, delete_cluster, update_user_clusters, set_user_active, update_cluster,
}
use elastic_ops.Backend.Schemas.{is_integer, all_items}
use elastic_ops.Backend.Routes.{AppHandler, app_route}
use elastic_ops.Clusters.Dialog.{Dialog, create_data, update_data}
use elastic_ops.Users.Dialogs.{Invitation}
use elastic_ops.Contract.Requests.{IsFor, number_ok}

-- What the forms and buttons of the pages hand to the hooks of the account, the users and the clusters.
pub data FormCall : Type 0 where
  logs_in changes_password : String × String → FormCall
  sets_up : String × String × String → FormCall
  invites : Invitation → FormCall
  adds : Dialog → FormCall
  edits : ℕ → Dialog → FormCall
  removes_cluster removes_user : ℕ → FormCall
  sets_access : ℕ → List ℕ → FormCall
  sets_active : ℕ → Bool → FormCall

unfoldable pub form_operation : FormCall → AppOperation
form_operation (logs_in d) = login (login_body d)
form_operation (changes_password d) = change_password (password_body d)
form_operation (sets_up d) = setup (setup_body d)
form_operation (invites i) = invite_user (invite_body i)
form_operation (adds d) = create_cluster (cluster_body (create_data d))
form_operation (edits c d) = update_cluster c (cluster_body (update_data d))
form_operation (removes_cluster c) = delete_cluster c
form_operation (removes_user u) = delete_user u
form_operation (sets_access u cs) = update_user_clusters u cs
form_operation (sets_active u active) = set_user_active u active

unfoldable pub form_handler : FormCall → AppHandler
form_handler (logs_in d) = AppHandler.login
form_handler (changes_password d) = AppHandler.change_password
form_handler (sets_up d) = AppHandler.setup
form_handler (invites i) = AppHandler.invite_user
form_handler (adds d) = AppHandler.create_cluster
form_handler (edits c d) = AppHandler.update_cluster
form_handler (removes_cluster c) = AppHandler.delete_cluster
form_handler (removes_user u) = AppHandler.delete_user
form_handler (sets_access u cs) = AppHandler.update_user_clusters
form_handler (sets_active u active) = AppHandler.set_user_active

unfoldable pub form_ids : FormCall → List ℕ
form_ids (edits c d) = c ∷ []
form_ids (removes_cluster c) = c ∷ []
form_ids (removes_user u) = u ∷ []
form_ids (sets_access u cs) = u ∷ []
form_ids (sets_active u active) = u ∷ []
form_ids _ = []

naturals_ok : (ns : List ℕ) → all_items is_integer (naturals ns) ≡ true
unfolding naturals
naturals_ok [] = refl
naturals_ok (n ∷ ns) = rw (number_ok n) (naturals_ok ns)

ends_in : (s : String) (n : ℕ) → s ++ show n ≡ s ++ show n ++ ""
ends_in s n = rw (append-nil (show n)) refl

-- What each form and button of the accounts, users and clusters sends is a request for its handler: the method, the
-- path, and a body that has every field which the handler's model requires, each of its type.
pub form_requests :
    (f : FormCall)
    → IsFor (app_route (form_handler f)) (form_ids f) none (app_request (form_operation f))
unfolding app_route form_handler form_ids form_operation app_request lookup login_body setup_body
    password_body invite_body cluster_body create_data update_data
form_requests (logs_in (e, p)) = record {
  method_same = refl;
  path_same = refl;
  query_taken = refl;
  body_taken = refl;
}
form_requests (changes_password (e, p)) = record {
  method_same = refl;
  path_same = refl;
  query_taken = refl;
  body_taken = refl;
}
form_requests (sets_up (n, e, p)) = record {
  method_same = refl;
  path_same = refl;
  query_taken = refl;
  body_taken = refl;
}
form_requests (invites i) = record {
  method_same = refl;
  path_same = refl;
  query_taken = refl;
  body_taken = rw (naturals_ok i.cluster_ids) refl;
}
form_requests (adds d) = record {
  method_same = refl;
  path_same = refl;
  query_taken = refl;
  body_taken = ground arith;
}
form_requests (edits c d) = record {
  method_same = refl;
  path_same = ends_in "/api/clusters/" c;
  query_taken = refl;
  body_taken = ground arith;
}
form_requests (removes_cluster c) = record {
  method_same = refl;
  path_same = ends_in "/api/clusters/" c;
  query_taken = refl;
  body_taken = refl;
}
form_requests (removes_user c) = record {
  method_same = refl;
  path_same = ends_in "/api/admin/users/" c;
  query_taken = refl;
  body_taken = refl;
}
form_requests (sets_access u cs) = record {
  method_same = refl;
  path_same = refl;
  query_taken = refl;
  body_taken = naturals_ok cs;
}
form_requests (sets_active u active) = record {
  method_same = refl;
  path_same = ends_in "/api/admin/users/" u;
  query_taken = refl;
  body_taken = refl;
}
