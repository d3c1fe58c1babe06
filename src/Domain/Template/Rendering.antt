-- ===== src/Domain/Template/Rendering.antt =====
-- packages/domain/src/template/render-template.ts. The values are an object's entries in the order
-- of its keys, a number the text that `String` makes of it.
pub mod Laws
use whatsapp_notification_pl.Prelude.{
  ℕ, Bool, true, false, not, ◌&&◌, Option, none, some, List, [], ◌∷◌, ◌++◌, map, ltb, if◌then◌else◌,
  get_or, is_some, length, filter, any, Text, text_eq, codes, text_includes,
}
use whatsapp_notification_pl.Domain.Template.{TemplateNode, text, variable, ParsedTemplate}

pub record TemplateVariableDeclaration : Type 0 where
  pub name : Text
  pub required : Bool
  pub default_value : Option Text

-- `unknown`, by what the code can tell of it; `other` is any further `typeof`.
pub data Value : Type 0 where
  undefined null array : Value
  string number : (shown : Text) → Value
  boolean : Bool → Value
  other : (type_name : Text) → Value

abbrev pub maximum_rendered_body_length : ℕ
maximum_rendered_body_length = 4096

abbrev pub maximum_variable_value_length : ℕ
maximum_variable_value_length = 1024

-- `TemplateRenderErrorCode` with what `details` holds for it.
pub data TemplateRenderError : Type 0 where
  template_variable_missing template_variable_unknown template_variable_too_long :
      List Text → TemplateRenderError
  template_variable_invalid_type : List (Text × Text) → TemplateRenderError
  rendered_body_too_long : (rendered_length : ℕ) → TemplateRenderError

pub record RenderResult : Type 0 where
  pub rendered_body : Text
  pub character_count : ℕ
  pub variables_used : List Text
  pub optional_variables_defaulted : List Text

pub data Rendering : Type 0 where
  rendered : RenderResult → Rendering
  render_error : TemplateRenderError → Rendering

abbrev pub describe_type : Value → Text
describe_type undefined = codes "undefined"
describe_type null = codes "null"
describe_type array = codes "array"
describe_type (string shown) = codes "string"
describe_type (number shown) = codes "number"
describe_type (boolean b) = codes "boolean"
describe_type (other type_name) = type_name

-- `String(value)` of a supported value
abbrev pub supported_text : Value → Option Text
supported_text (string shown) = some shown
supported_text (number shown) = some shown
supported_text (boolean true) = some (codes "true")
supported_text (boolean false) = some (codes "false")
supported_text _ = none

abbrev pub is_supported_value : Value → Bool
is_supported_value value = is_some (supported_text value)

abbrev pub is_nullish : Value → Bool
is_nullish undefined = true
is_nullish null = true
is_nullish _ = false

-- `values[name]`
abbrev pub supplied : List (Text × Value) → Text → Value
supplied [] name = undefined
supplied ((key, value) ∷ values) name =
    let later = supplied values name in if text_eq key name then value else later

-- A `Map` in the order of its keys' insertion.
abbrev pub get : List (Text × Text) → Text → Option Text
get [] name = none
get ((key, value) ∷ entries) name =
    let later = get entries name in if text_eq key name then some value else later

abbrev pub put : Text → Text → List (Text × Text) → List (Text × Text)
put name value [] = (name, value) ∷ []
put name value ((key, old) ∷ entries) =
    let later = put name value entries in
    if text_eq key name then (key, value) ∷ entries else (key, old) ∷ later

unfoldable pub unknown_variables :
    List TemplateVariableDeclaration → List (Text × Value) → List Text
unknown_variables declarations values =
    filter
      (λ name. not (any (λ (d : TemplateVariableDeclaration). text_eq d.name name) declarations))
      (map (λ (entry : Text × Value). entry.0) values)

unfoldable pub invalid_variables : List (Text × Value) → List (Text × Text)
invalid_variables values =
    map (λ (entry : Text × Value). (entry.0, describe_type entry.1))
      (filter
        (λ (entry : Text × Value). not (is_nullish entry.1) && not (is_supported_value entry.1))
        values)

unfoldable pub too_long_variables : List (Text × Text) → List Text
too_long_variables resolved =
    map (λ (entry : Text × Text). entry.0)
      (filter (λ (entry : Text × Text). ltb maximum_variable_value_length (length entry.1))
        resolved)

-- `ResolutionResult`, with the missing variables that it is thrown for.
pub record Resolution : Type 0 where
  pub resolved : List (Text × Text)
  pub defaulted : List Text
  pub missing_variables : List Text

abbrev pub no_resolution : Resolution
no_resolution = record { resolved = []; defaulted = []; missing_variables = [] }

abbrev pub resolve_unsupplied : TemplateVariableDeclaration → Resolution → Resolution
resolve_unsupplied d r =
    if d.required
    then record r { missing_variables = r.missing_variables ++ d.name ∷ [] }
    else record r {
      resolved = put d.name (get_or d.default_value []) r.resolved;
      defaulted = r.defaulted ++ d.name ∷ [];
    }

abbrev pub resolve_variable :
    List (Text × Value) → TemplateVariableDeclaration → Resolution → Resolution
resolve_variable values d r = elim (supported_text (supplied values d.name)) [
  | some shown ↦ record r { resolved = put d.name shown r.resolved }
  | none ↦ resolve_unsupplied d r
]

-- The loop of `resolveVariables`.
abbrev pub resolve_variables :
    List (Text × Value) → List TemplateVariableDeclaration → Resolution → Resolution
resolve_variables values [] r = r
resolve_variables values (d ∷ declarations) r =
    resolve_variables values declarations (resolve_variable values d r)

-- An assertion: it throws the error of a list that is not empty.
abbrev pub assert_none :
    {A : Type 0} → (List A → TemplateRenderError) → List A → Rendering → Rendering
assert_none error [] next = next
assert_none error (x ∷ xs) next = render_error (error (x ∷ xs))

abbrev pub render_node : List (Text × Text) → TemplateNode → Text
render_node resolved (text value) = value
render_node resolved (variable name start end) = get_or (get resolved name) []

abbrev pub render_nodes : List (Text × Text) → List TemplateNode → Text
render_nodes resolved [] = []
render_nodes resolved (node ∷ nodes) = render_node resolved node ++ render_nodes resolved nodes

abbrev pub finish_rendering : ParsedTemplate → (defaulted : List Text) → (body : Text) → Rendering
finish_rendering parsed defaulted body =
    if ltb maximum_rendered_body_length (length body)
    then render_error (rendered_body_too_long (length body))
    else rendered (record {
      rendered_body = body;
      character_count = length body;
      variables_used = parsed.variable_names;
      optional_variables_defaulted = filter (text_includes parsed.variable_names) defaulted;
    })

unfoldable pub render_template :
    ParsedTemplate → List TemplateVariableDeclaration → List (Text × Value) → Rendering
unfolding unknown_variables invalid_variables too_long_variables
render_template parsed declarations values =
    let resolution = resolve_variables values declarations no_resolution in
    assert_none template_variable_unknown (unknown_variables declarations values) (
      assert_none template_variable_invalid_type (invalid_variables values) (
        assert_none template_variable_missing resolution.missing_variables (
          assert_none template_variable_too_long (too_long_variables resolution.resolved) (
            finish_rendering parsed resolution.defaulted
              (render_nodes resolution.resolved parsed.nodes)))))
