-- ===== src/Examples/Texts.antt =====
-- The theorems on templates, keys and answers of the provider at concrete inputs.
use whatsapp_notification_pl.Prelude.{
  ◌≤◌, ◌≡◌, refl, ◌≢◌, ◌↔◌, true, false, none, some, List, [], ◌∷◌, length, replicate, any, Text,
  codes,
}
use whatsapp_notification_pl.Domain.ApiKeyFormat.{
  ParsedApiKey, live, format_api_key, try_parse_api_key,
}
use whatsapp_notification_pl.Domain.ApiKeyFormat.Laws.{IsWellFormed, try_parse_api_key-iff-format}
use whatsapp_notification_pl.Domain.Template.{
  text, variable, ParsedTemplate, parsed, out_of_fuel, parse_template,
}
use whatsapp_notification_pl.Domain.Template.Laws.{parse_template-ends}
use whatsapp_notification_pl.Domain.Template.Escaping.{parse_template-escape}
use whatsapp_notification_pl.Domain.Template.Rendering.{
  TemplateVariableDeclaration, Value, string, RenderResult, unknown_variables, invalid_variables,
  too_long_variables, render_template, maximum_rendered_body_length,
}
use whatsapp_notification_pl.Domain.Template.Rendering.Laws.{
  is_missing, expected_body, render_template-rendered,
}
use whatsapp_notification_pl.Domain.Failure.{has_unknown_outcome, is_retryable}
use whatsapp_notification_pl.Provider.Classification.{
  TransportError, classify_http_status, classify_transport_error, is_reachout_timelock,
  is_message_capping, is_about_session_state,
}
use whatsapp_notification_pl.Provider.Classification.Laws.{
  classify_http_status_lem, classify_transport_error_lem,
}

abbrev api_key : ParsedApiKey
api_key = record { environment = live; identifier = replicate 12 b'a'; secret = replicate 32 b'b' }

try_parse_api_key-iff-format_example :
    (try_parse_api_key (codes "wnp_live_aaaaaaaaaaaabbbbbbbbbbbbbbbbbbbbbbbbbbbbbbbb")
      ≡ some api_key)
    ↔ (IsWellFormed api_key
        × (codes "wnp_live_aaaaaaaaaaaabbbbbbbbbbbbbbbbbbbbbbbbbbbbbbbb"
            ≡ format_api_key live (replicate 12 b'a') (replicate 32 b'b')))
try_parse_api_key-iff-format_example =
    try_parse_api_key-iff-format (codes "wnp_live_aaaaaaaaaaaabbbbbbbbbbbbbbbbbbbbbbbbbbbbbbbb")
      api_key

parse_template-ends_example : parse_template (codes "Hi {{ name }}, {{") ≢ out_of_fuel
parse_template-ends_example = parse_template-ends (codes "Hi {{ name }}, {{")

parse_template-escape_example :
    parse_template (codes "a \\{{b}}")
    ≡ parsed (record { nodes = text (codes "a {{b}}") ∷ []; variable_names = [] })
parse_template-escape_example = parse_template-escape (codes "a {{b}}")

abbrev template : ParsedTemplate
template = record {
  nodes = text (codes "Hi ") ∷ variable (codes "name") 3 13 ∷ [];
  variable_names = codes "name" ∷ [];
}

abbrev declarations : List TemplateVariableDeclaration
declarations = record { name = codes "name"; required = true; default_value = none } ∷ []

abbrev values : List (Text × Value)
values = (codes "name", string (codes "{{Ana}}")) ∷ []

abbrev rendering : RenderResult
rendering = record {
  rendered_body = codes "Hi {{Ana}}";
  character_count = 10;
  variables_used = codes "name" ∷ [];
  optional_variables_defaulted = [];
}

render_template-rendered_example :
    (unknown_variables declarations values ≡ [])
    × (invalid_variables values ≡ [])
    × (any (is_missing values) declarations ≡ false)
    × (codes "Hi {{Ana}}" ≡ expected_body values declarations template.nodes)
    × (length (codes "Hi {{Ana}}") ≤ maximum_rendered_body_length)
unfolding render_template unknown_variables invalid_variables too_long_variables
render_template-rendered_example =
    render_template-rendered template declarations values rendering refl

classify_http_status_lem_example :
    (has_unknown_outcome (classify_http_status (λ t. none) 422 (codes "Session is starting") none)
      ≡ false)
    × ((classify_http_status
          (λ t. none)
          422
          (codes "Session is starting")
          none).provider_status_code
        ≡ some 422)
    × (is_retryable (classify_http_status (λ t. none) 422 (codes "Session is starting") none)
        ≡ true)
unfolding classify_http_status is_reachout_timelock is_message_capping is_about_session_state
classify_http_status_lem_example =
    classify_http_status_lem (λ t. none) 422 (codes "Session is starting") none

abbrev refused_connection : TransportError
refused_connection = record {
  name = codes "TypeError";
  code = none;
  cause_code = some (codes "ECONNREFUSED");
}

classify_transport_error_lem_example :
    (is_retryable (classify_transport_error refused_connection false) ≡ true)
    × (has_unknown_outcome (classify_transport_error refused_connection false) ≡ false)
unfolding classify_transport_error
classify_transport_error_lem_example = classify_transport_error_lem refused_connection false
