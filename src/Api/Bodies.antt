-- ===== src/Api/Bodies.antt =====
-- The objects that the forms hand to the hooks, as the JSON that `JSON.stringify` writes: a property that
-- is `undefined` is left out.
use elastic_ops.Prelude.{ℕ, String, Bool, Option, none, some, List, [], ◌∷◌}
use elastic_ops.Api.Json.{Json, null, bool, str, arr, obj, Fields, end, field}
use elastic_ops.Api.Queries.{es_path}
use elastic_ops.Api.Clusters.{ClusterCreate}
use elastic_ops.Api.Operations.{Sends, with_body, naturals}
use elastic_ops.Users.Dialogs.{Invitation}
use elastic_ops.Settings.{Update}
use elastic_ops.Rest.{Sent, Parsed, no_body, body_value, syntax_error}

abbrev texts_if : String → Option String → Fields → Fields
texts_if k none fs = fs
texts_if k (some s) fs = field k (str s) fs

abbrev flags_if : String → Option Bool → Fields → Fields
flags_if k none fs = fs
flags_if k (some b) fs = field k (bool b) fs

unfoldable pub cluster_body : ClusterCreate → Json
cluster_body c = obj (
    field "name" (str c.name) (
      field "url" (str c.url) (
        texts_if "username" c.username (
          texts_if "password" c.password (
            flags_if "verify_ssl" c.verify_ssl
              (flags_if "read_only" c.read_only (flags_if "is_active" c.is_active end)))))))

-- `{ email, password }`
unfoldable pub login_body : String × String → Json
login_body (email, password) = obj (field "email" (str email) (field "password" (str password) end))

-- `{ name, email, password }`
unfoldable pub setup_body : String × String × String → Json
setup_body (name, email, password) =
    obj (field "name" (str name) (field "email" (str email) (field "password" (str password) end)))

-- `{ current_password: currentPassword, new_password: newPassword }`
unfoldable pub password_body : String × String → Json
password_body (current, new) =
    obj (field "current_password" (str current) (field "new_password" (str new) end))

unfoldable pub invite_body : Invitation → Json
unfolding naturals
invite_body i = obj (
    field "name" (str i.name) (
      field "email" (str i.email) (
        field "password" (str i.password)
          (field "role" (str i.role) (field "cluster_ids" (arr (naturals i.cluster_ids)) end)))))

abbrev value_or_null : Option String → Json
value_or_null none = null
value_or_null (some v) = str v

abbrev pub settings_fields : List (String × Option String) → Fields
settings_fields [] = end
settings_fields ((k, v) ∷ rest) = field k (value_or_null v) (settings_fields rest)

abbrev parts_if : String → Option (List (String × Option String)) → Fields → Fields
parts_if k none fs = fs
parts_if k (some entries) fs = field k (obj (settings_fields entries)) fs

unfoldable pub settings_body : Update → Json
settings_body u =
    obj (parts_if "persistent" u.persistent_part (parts_if "transient" u.transient_part end))

rest_fields : Sent → Fields → Json
rest_fields s body = obj (field "method" (str s.method) (field "path" (str s.path) body))

-- `useRestProxy`: nothing is sent where `JSON.parse` throws.
unfoldable pub rest_sends : Sent → Parsed → ℕ → Option Sends
unfolding rest_fields
rest_sends s no_body c = some (with_body "POST" (es_path c "/rest") (rest_fields s end))
rest_sends s (body_value j) c =
    some (with_body "POST" (es_path c "/rest") (rest_fields s (field "body" j end)))
rest_sends s (syntax_error message) c = none
