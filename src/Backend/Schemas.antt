-- ===== src/Backend/Schemas.antt =====
-- The request models of backend/schemas/*.py and backend/routes/es.py: each field by its name, its type,
-- whether `None` is allowed and whether it has a default. `accepts` is the condition under which a body
-- has what a model declares, as it stands, without a conversion.
use package.text.Mathlib.Text.{◌==◌ as str_eq}
use elastic_ops.Prelude.{String, Bool, true, false, ◌&&◌, List, [], ◌∷◌, any}
use elastic_ops.Prelude.Text.{truthy, codes, all_digits}
use elastic_ops.Api.Json.{
  Json, null, bool, num, str, arr, obj, Items, nil, cons, Fields, end, field, lookup, value,
  undefined, type_error,
}

-- `str`, `int`, `bool`, `list[str]`, `list[int]`, `dict`
pub data Kind : Type 0 where
  text number flag texts numbers dict : Kind

pub record Spec : Type 0 where
  pub name : String
  pub kind : Kind
  pub nullable : Bool
  pub optional : Bool

abbrev pub Schema : Type 0
Schema = List Spec

abbrev required : String → Kind → Spec
required name kind = record { name = name; kind = kind; nullable = false; optional = false }

abbrev with_default : String → Kind → Spec
with_default name kind = record { name = name; kind = kind; nullable = false; optional = true }

-- `kind | None = None`
abbrev or_none : String → Kind → Spec
or_none name kind = record { name = name; kind = kind; nullable = true; optional = true }

abbrev pub relocate_request : Schema
relocate_request =
    required "index" text
    ∷ required "shard" number
    ∷ required "from_node" text
    ∷ required "to_node" text
    ∷ []

abbrev pub drain_request : Schema
drain_request = required "node" text ∷ []

abbrev pub promote_request : Schema
promote_request =
    required "source" text
    ∷ required "target" text
    ∷ required "alias" text
    ∷ with_default "delete_source" flag
    ∷ []

abbrev pub reindex_request : Schema
reindex_request = required "source" text ∷ required "dest" text ∷ []

abbrev pub recommend_request : Schema
recommend_request = or_none "detectors" texts ∷ []

abbrev pub cluster_create : Schema
cluster_create =
    required "name" text
    ∷ required "url" text
    ∷ with_default "username" text
    ∷ with_default "password" text
    ∷ with_default "verify_ssl" flag
    ∷ with_default "read_only" flag
    ∷ []

abbrev pub cluster_update : Schema
cluster_update =
    or_none "name" text
    ∷ or_none "url" text
    ∷ or_none "username" text
    ∷ or_none "password" text
    ∷ or_none "verify_ssl" flag
    ∷ or_none "read_only" flag
    ∷ or_none "is_active" flag
    ∷ []

abbrev pub setup_request : Schema
setup_request = required "name" text ∷ required "email" text ∷ required "password" text ∷ []

abbrev pub login_request : Schema
login_request = required "email" text ∷ required "password" text ∷ []

abbrev pub invite_request : Schema
invite_request =
    required "name" text
    ∷ required "email" text
    ∷ required "password" text
    ∷ with_default "role" text
    ∷ with_default "cluster_ids" numbers
    ∷ []

abbrev pub password_change : Schema
password_change = required "current_password" text ∷ required "new_password" text ∷ []

abbrev pub user_active_update : Schema
user_active_update = required "is_active" flag ∷ []

abbrev pub settings_update_request : Schema
settings_update_request = or_none "persistent" dict ∷ or_none "transient" dict ∷ []

abbrev pub allocation_explain_request : Schema
allocation_explain_request =
    or_none "index" text ∷ or_none "shard" number ∷ or_none "primary" flag ∷ []

abbrev pub rest_request : Schema
rest_request = required "method" text ∷ required "path" text ∷ or_none "body" dict ∷ []

-- A JSON number without sign, fraction or exponent.
abbrev pub is_integer : Json → Bool
is_integer (num s) = truthy s && all_digits (codes s)
is_integer _ = false

abbrev pub is_text : Json → Bool
is_text (str s) = true
is_text _ = false

abbrev pub all_items : (Json → Bool) → Items → Bool
all_items p nil = true
all_items p (cons j js) = p j && all_items p js

abbrev pub is_of : Kind → Json → Bool
is_of text j = is_text j
is_of number j = is_integer j
is_of flag (bool b) = true
is_of texts (arr js) = all_items is_text js
is_of numbers (arr js) = all_items is_integer js
is_of dict (obj fs) = true
is_of _ _ = false

abbrev pub takes : Spec → Json → Bool
takes spec null = spec.nullable
takes spec j = is_of spec.kind j

abbrev pub field_ok : Spec → Fields → Bool
field_ok spec fs = elim (lookup spec.name fs) [
  | value j ↦ takes spec j
  | undefined ↦ spec.optional
  | type_error ↦ false
]

abbrev pub all_fields_ok : Schema → Fields → Bool
all_fields_ok [] fs = true
all_fields_ok (spec ∷ specs) fs = field_ok spec fs && all_fields_ok specs fs

-- Every name that is sent is one that the model has.
abbrev pub all_names_known : Schema → Fields → Bool
all_names_known schema end = true
all_names_known schema (field k v fs) =
    any (λ spec. str_eq spec.name k) schema && all_names_known schema fs

-- The body of a request against the model of its handler.
abbrev pub accepts : Schema → Json → Bool
accepts schema (obj fs) = all_fields_ok schema fs && all_names_known schema fs
accepts schema _ = false
