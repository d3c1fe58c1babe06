-- ===== src/Domain/Template/Rendering/Laws.antt =====
-- What a rendering that succeeds has substituted.
use whatsapp_notification_pl.Prelude.{
  ◌≤◌, ◌≡◌, refl, sym, ap, ◌∙◌, Bool, true, false, not, ◌&&◌, Option, none, some, List, [], ◌∷◌,
  ◌++◌, arith, ltb, if◌then◌else◌, get_or, is_some, length, filter, any, Text, text_eq, text_eq_lem,
  text_eq_refl, text_includes,
}
use mathlib.Core.Path.{subst}
use whatsapp_notification_pl.Domain.Template.{TemplateNode, text, variable, ParsedTemplate}
use whatsapp_notification_pl.Domain.Template.Rendering.{
  TemplateVariableDeclaration, Value, TemplateRenderError, template_variable_unknown,
  template_variable_invalid_type, template_variable_missing, template_variable_too_long,
  rendered_body_too_long, RenderResult, Rendering, rendered, render_error, supported_text,
  is_supported_value, supplied, get, put, unknown_variables, invalid_variables, Resolution,
  no_resolution, resolve_variable, resolve_variables, assert_none, render_nodes, finish_rendering,
  render_template, maximum_rendered_body_length,
}

-- What a declaration says of the text for its name, given what was said before.
abbrev pub declared_text :
    List (Text × Value) → TemplateVariableDeclaration → Option Text → Option Text
declared_text values d before = elim (supported_text (supplied values d.name)) [
  | some shown ↦ some shown
  | none ↦ if d.required then before else some (get_or d.default_value [])
]

-- The last declaration of a name decides.
abbrev pub expected_text :
    List (Text × Value) → List TemplateVariableDeclaration → Text → Option Text → Option Text
expected_text values [] name before = before
expected_text values (d ∷ declarations) name before =
    expected_text values declarations name
      (if text_eq d.name name then declared_text values d before else before)

abbrev pub expected_body :
    List (Text × Value) → List TemplateVariableDeclaration → List TemplateNode → Text
expected_body values declarations [] = []
expected_body values declarations (text value ∷ nodes) =
    value ++ expected_body values declarations nodes
expected_body values declarations (variable name start end ∷ nodes) =
    get_or (expected_text values declarations name none) []
    ++ expected_body values declarations nodes

get-put :
    (name value : Text) (entries : List (Text × Text)) (other : Text)
    → get (put name value entries) other
      ≡ (if text_eq name other then some value else get entries other)
get-put name value [] other = refl
get-put name value ((key, old) ∷ entries) other = ground (
  arith,
  text_eq_lem key name,
  text_eq_lem name other,
  text_eq_lem key other,
  text_eq_refl key,
  get-put name value entries other,
)

get-resolve_variable :
    (values : List (Text × Value)) (d : TemplateVariableDeclaration) (r : Resolution) (name : Text)
    → get (resolve_variable values d r).resolved name ≡ (
        if text_eq d.name name
        then declared_text values d (get r.resolved name)
        else get r.resolved name)
get-resolve_variable values d r name = go (supported_text (supplied values d.name)) d.required
  where
    go :
        (o : Option Text) (b : Bool)
        → get
            (elim o as (λ _. Resolution) [
              | some shown ↦ record r { resolved = put d.name shown r.resolved }
              | none ↦
                  if b
                  then record r { missing_variables = r.missing_variables ++ d.name ∷ [] }
                  else record r {
                    resolved = put d.name (get_or d.default_value []) r.resolved;
                    defaulted = r.defaulted ++ d.name ∷ [];
                  }
            ]).resolved
            name
          ≡ (if text_eq d.name name
              then elim o as (λ _. Option Text) [
                | some shown ↦ some shown
                | none ↦ if b then get r.resolved name else some (get_or d.default_value [])
              ]
              else get r.resolved name)
    go (some shown) b = get-put d.name shown r.resolved name
    go none true = ground arith
    go none false = get-put d.name (get_or d.default_value []) r.resolved name

get-resolve_variables :
    (values : List (Text × Value)) (ds : List TemplateVariableDeclaration) (r : Resolution)
    (name : Text)
    → get (resolve_variables values ds r).resolved name
      ≡ expected_text values ds name (get r.resolved name)
get-resolve_variables values [] r name = refl
get-resolve_variables values (d ∷ ds) r name =
    get-resolve_variables values ds (resolve_variable values d r) name
    ∙ ap (expected_text values ds name) (get-resolve_variable values d r name)

render_nodes-expected :
    (values : List (Text × Value)) (ds : List TemplateVariableDeclaration)
    (nodes : List TemplateNode)
    → render_nodes (resolve_variables values ds no_resolution).resolved nodes
      ≡ expected_body values ds nodes
render_nodes-expected values ds [] = refl
render_nodes-expected values ds (text value ∷ nodes) =
    ap (λ (rest : Text). value ++ rest) (render_nodes-expected values ds nodes)
render_nodes-expected values ds (variable name start end ∷ nodes) =
    ap (λ (o : Option Text). get_or o [] ++ render_nodes resolved nodes)
      (get-resolve_variables values ds no_resolution name)
    ∙ ap (λ (rest : Text). get_or (expected_text values ds name none) [] ++ rest)
        (render_nodes-expected values ds nodes)
  where
    resolved : List (Text × Text)
    resolved = (resolve_variables values ds no_resolution).resolved

assert_none-rendered :
    {A : Type 0} (error : List A → TemplateRenderError) (xs : List A) (next : Rendering)
    (r : RenderResult)
    → assert_none error xs next ≡ rendered r
    → (xs ≡ []) × (next ≡ rendered r)
assert_none-rendered error [] next r h = (refl, h)
assert_none-rendered error (x ∷ xs) next r h = cc

-- What is missing is what was, and each required variable that has no supported value.
abbrev pub is_missing : List (Text × Value) → TemplateVariableDeclaration → Bool
is_missing values d = d.required && not (is_supported_value (supplied values d.name))

missing-resolve_variable :
    (values : List (Text × Value)) (d : TemplateVariableDeclaration) (r : Resolution)
    → (resolve_variable values d r).missing_variables ≡ []
    → (r.missing_variables ≡ []) × (is_missing values d ≡ false)
missing-resolve_variable values d r h =
    go (supported_text (supplied values d.name)) d.required r.missing_variables h
  where
    go :
        (o : Option Text) (b : Bool) (missing : List Text)
        → (elim o as (λ _. Resolution) [
          | some shown ↦ record {
            resolved = put d.name shown r.resolved;
            defaulted = r.defaulted;
            missing_variables = missing;
          }
          | none ↦
              if b
              then record {
                resolved = r.resolved;
                defaulted = r.defaulted;
                missing_variables = missing ++ d.name ∷ [];
              }
              else record {
                resolved = put d.name (get_or d.default_value []) r.resolved;
                defaulted = r.defaulted ++ d.name ∷ [];
                missing_variables = missing;
              }
        ]).missing_variables
          ≡ []
        → (missing ≡ []) × ((b && not (is_some o)) ≡ false)
    go (some shown) true missing k = (k, refl)
    go (some shown) false missing k = (k, refl)
    go none true [] k = cc
    go none true (x ∷ missing) k = cc
    go none false missing k = (k, refl)

missing-resolve_variables :
    (values : List (Text × Value)) (ds : List TemplateVariableDeclaration) (r : Resolution)
    → (resolve_variables values ds r).missing_variables ≡ []
    → (r.missing_variables ≡ []) × (any (is_missing values) ds ≡ false)
missing-resolve_variables values [] r h = (h, refl)
missing-resolve_variables values (d ∷ ds) r h =
    let (p, q) = missing-resolve_variables values ds (resolve_variable values d r) h in
    let (m, n) = missing-resolve_variable values d r p in (m, rw (n, q))

-- The body, of a rendering that succeeds.
abbrev body_of : Rendering → Text
body_of (rendered r) = r.rendered_body
body_of (render_error error) = []

finish_rendering-rendered :
    (parsed : ParsedTemplate) (defaulted : List Text) (body : Text) (r : RenderResult)
    → finish_rendering parsed defaulted body ≡ rendered r
    → (r.rendered_body ≡ body) × (length body ≤ maximum_rendered_body_length)
finish_rendering-rendered parsed defaulted body r h =
    go (ltb maximum_rendered_body_length (length body)) refl h
  where
    go :
        (b : Bool)
        → ltb maximum_rendered_body_length (length body) ≡ b
        → (if b
            then render_error (rendered_body_too_long (length body))
            else rendered (record {
              rendered_body = body;
              character_count = length body;
              variables_used = parsed.variable_names;
              optional_variables_defaulted = filter (text_includes parsed.variable_names) defaulted;
            }))
          ≡ rendered r
        → (r.rendered_body ≡ body) × (length body ≤ maximum_rendered_body_length)
    go true e k = cc
    go false e k = (sym (ap body_of k), ground arith)

-- A rendering that succeeds has no undeclared variable among its values, no value of an
-- unsupported type, and no required variable without a supported value; its body has at most 4096
-- characters, and is the template's text with each placeholder replaced, once, by what the last
-- declaration of its name says: the supported value given, else the default, else nothing.
pub render_template-rendered :
    (parsed : ParsedTemplate) (ds : List TemplateVariableDeclaration) (values : List (Text × Value))
    (r : RenderResult)
    → render_template parsed ds values ≡ rendered r
    → (unknown_variables ds values ≡ [])
      × (invalid_variables values ≡ [])
      × (any (is_missing values) ds ≡ false)
      × (r.rendered_body ≡ expected_body values ds parsed.nodes)
      × (length r.rendered_body ≤ maximum_rendered_body_length)
unfolding render_template
render_template-rendered parsed ds values r h =
    let (unknown, h1) = assert_none-rendered template_variable_unknown _ _ r h in
    let (invalid, h2) = assert_none-rendered template_variable_invalid_type _ _ r h1 in
    let (missing, h3) = assert_none-rendered template_variable_missing _ _ r h2 in
    let (long, h4) = assert_none-rendered template_variable_too_long _ _ r h3 in
    let (body, bound) = finish_rendering-rendered parsed _ _ r h4 in
    (
      unknown,
      invalid,
      (missing-resolve_variables values ds no_resolution missing).1,
      body ∙ render_nodes-expected values ds parsed.nodes,
      subst (λ (t : Text). length t ≤ maximum_rendered_body_length) (sym body) bound,
    )
