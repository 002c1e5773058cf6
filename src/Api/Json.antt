-- ===== src/Api/Json.antt =====
-- HTTP requests with JSON bodies.
use mailserver_ui.Common.{ℕ, String, Bool, Option, none, some, List, []}

pub data Method : Type 0 where
  get post put patch remove : Method

-- A field of a JSON body; `rows` is an array of objects whose fields are texts.
pub data Value : Type 0 where
  null : Value
  text : String → Value
  flag : Bool → Value
  number : ℕ → Value
  numbers : List ℕ → Value
  texts : List String → Value
  rows : List (List (String × String)) → Value

-- A request without a body has no fields, as one with the body `{}`. The client writes `params`
-- behind the path, as its query.
pub record Request : Type 0 where
  pub method : Method
  pub url : String
  pub params : List (String × String)
  pub body : List (String × Value)

abbrev pub text_or_null : Option String → Value
text_or_null none = null
text_or_null (some t) = text t

abbrev pub number_or_null : Option ℕ → Value
number_or_null none = null
number_or_null (some n) = number n

abbrev pub bare : Method → String → Request
bare method url = record { method = method; url = url; params = []; body = [] }

abbrev pub with_body : Method → String → List (String × Value) → Request
with_body method url body = record { method = method; url = url; params = []; body = body }

abbrev pub with_params : Method → String → List (String × String) → Request
with_params method url params = record { method = method; url = url; params = params; body = [] }
