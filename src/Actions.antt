-- ===== src/Actions.antt =====
-- core/actions.py: the action model, and the JSON-like values of its payload and metadata.
use velox_server.Prelude.{
  ℕ, String, Bool, true, false, Option, none, some, nat_eq, string_eq, ◌==◌, not, if◌then◌else◌, [],
  ◌∷◌,
}
use velox_server.Prelude.Dict.{Dict}

-- A UUID is its 128-bit integer; a UTC datetime is its microseconds since the epoch.
abbrev pub Uuid : Type 0
Uuid = ℕ

abbrev pub Instant : Type 0
Instant = ℕ

-- The values that a `dict[str, Any]` holds. `timestamp` is the ISO text of a UTC datetime and
-- `identifier` is `str(uuid)`; the program writes both and reads neither back.
mutual
  pub data Value : Type 0 where
    null : Value
    flag : Bool → Value
    num : ℕ → Value
    text : String → Value
    timestamp : Instant → Value
    identifier : Uuid → Value
    arr : Items → Value
    obj : Fields → Value

  pub data Items : Type 0 where
    no_items : Items
    item : Value → Items → Items

  pub data Fields : Type 0 where
    end : Fields
    field : String → Value → Fields → Fields

-- `value.get(key)` of a value that is a dict.
unfoldable pub field_of : Fields → String → Option Value
field_of end k = none
field_of (field j v fs) k = if j == k then some v else field_of fs k

-- A dict as a value.
unfoldable pub to_fields : Dict String Value → Fields
to_fields [] = end
to_fields ((k, v) ∷ d) = field k v (to_fields d)

-- bool(value)
unfoldable pub truthy : Value → Bool
truthy null = false
truthy (flag b) = b
truthy (num n) = not (n == 0)
truthy (text s) = not (s == "")
truthy (timestamp i) = true
truthy (identifier u) = true
truthy (arr no_items) = false
truthy (arr (item v vs)) = true
truthy (obj end) = false
truthy (obj (field k v fs)) = true

-- `None` as a value, for an optional text.
abbrev pub of_optional : Option String → Value
of_optional none = null
of_optional (some s) = text s

pub data ExecutorRole : Type 0 where
  content_review content_summary context_preparation software_engineering : ExecutorRole

-- role.value
unfoldable pub role_value : ExecutorRole → String
role_value content_review = "content_review"
role_value content_summary = "content_summary"
role_value context_preparation = "context_preparation"
role_value software_engineering = "software_engineering"

-- ExecutorRole | str | None
pub data RoleField : Type 0 where
  no_role : RoleField
  known_role : ExecutorRole → RoleField
  text_role : String → RoleField

pub record Action : Type 0 where
  pub id : Uuid
  pub type : String
  pub target : String
  pub payload : Dict String Value
  pub executor_role : RoleField
  pub created_at : Instant
  pub metadata : Dict String Value
