-- ===== src/Value/Json.antt =====
-- JSON values that documents are made of.
use agent_oauth_from_scratch.Shared.{String, List, [], ◌∷◌}
use agent_oauth_from_scratch.Value.{str, arr, obj, Items, nil, cons, Fields, end, field}

-- a JSON list of texts
abbrev pub texts : List String → Items
texts [] = nil
texts (s ∷ ss) = cons (str s) (texts ss)

-- `{"type": "string"}`
abbrev pub string_type : Fields
string_type = field "type" (str "string") end

-- `{"type": "string", "enum": names}`
abbrev pub enum_type : List String → Fields
enum_type names = field "type" (str "string") (field "enum" (arr (texts names)) end)

-- `{"type": "string", "format": "password"}`
abbrev pub password_type : Fields
password_type = field "type" (str "string") (field "format" (str "password") end)

-- `{"type": "string", "description": text}`
abbrev pub described_type : String → Fields
described_type text = field "type" (str "string") (field "description" (str text) end)

-- an object type with a title, its required members and all its members
abbrev pub object_schema : String → List String → Fields → Fields
object_schema title required properties = field "title" (str title) (
    field "type" (str "object")
      (field "required" (arr (texts required)) (field "properties" (obj properties) end)))
