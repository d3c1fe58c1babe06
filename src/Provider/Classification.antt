-- ===== src/Provider/Classification.antt =====
-- packages/provider-whatsapp/src/classify-failure.ts: from an HTTP answer or a transport error to a
-- failure. The patterns are without regard to the case of ASCII letters, which alone they hold. What
-- `Number` makes of a header is an argument: the whole seconds, of a finite number that is not
-- negative.
pub mod Laws
use whatsapp_notification_pl.Prelude.{
  ℕ, ◌+◌, Bool, false, not, ◌&&◌, ◌||◌, Option, none, some, List, [], ◌∷◌, map, leb, ◌==◌,
  if◌then◌else◌, length, drop, any, Text, codes, text_includes,
}
use whatsapp_notification_pl.Domain.Failure.{
  ProviderFailureCode, provider_unauthorized, session_missing, provider_invalid_request,
  provider_rate_limited, provider_server_error, connection_restricted, new_chat_quota_exceeded,
  session_not_ready, provider_unknown_error, provider_aborted, provider_timeout,
  provider_unreachable, provider_connection_lost, ProviderFailure, create_provider_failure,
  create_provider_failure_with,
}
use whatsapp_notification_pl.Domain.Template.{starts_with, trim}

abbrev pub lower : ℕ → ℕ
lower c = if leb b'A' c && leb c b'Z' then c + 32 else c

abbrev pub contains : (pattern : Text) → Text → Bool
contains pattern [] = starts_with pattern []
contains pattern (c ∷ rest) = starts_with pattern (c ∷ rest) || contains pattern rest

-- `\\w`
abbrev pub is_word : ℕ → Bool
is_word c =
    (leb b'a' c && leb c b'z')
    || ((leb b'A' c && leb c b'Z') || ((leb b'0' c && leb c b'9') || c == b'_'))

abbrev pub starts_with_word : Text → Bool
starts_with_word [] = false
starts_with_word (c ∷ rest) = is_word c

-- `\\bword\\b`, of a word of word characters; `after_word` tells of the character before.
abbrev pub contains_word : (word : Text) → (after_word : Bool) → Text → Bool
contains_word word after_word [] = false
contains_word word after_word (c ∷ rest) =
    (not after_word
      && (starts_with word (c ∷ rest) && not (starts_with_word (drop (length word) (c ∷ rest)))))
    || contains_word word (is_word c) rest

-- What `.` does not match.
abbrev pub is_line_terminator : ℕ → Bool
is_line_terminator c = c == 10 || (c == 13 || (c == 0x2028 || c == 0x2029))

abbrev pub session_states : List Text
session_states =
    codes "not connected"
    ∷ codes "not ready"
    ∷ codes "not working"
    ∷ codes "starting"
    ∷ codes "stopped"
    ∷ codes "scan"
    ∷ []

abbrev pub starts_with_state : Text → Bool
starts_with_state t = any (λ state. starts_with state t) session_states

-- `.*` and then one of the states
abbrev pub leads_to_state : Text → Bool
leads_to_state [] = false
leads_to_state (c ∷ rest) =
    starts_with_state (c ∷ rest) || (not (is_line_terminator c) && leads_to_state rest)

abbrev pub find_session_state : Text → Bool
find_session_state [] = false
find_session_state (c ∷ rest) =
    (starts_with (codes "session") (c ∷ rest) && leads_to_state (drop 6 rest))
    || find_session_state rest

-- `SESSION_STATE_PATTERN`
unfoldable pub is_about_session_state : Text → Bool
is_about_session_state message = find_session_state (map lower message)

-- `REACHOUT_TIMELOCK_PATTERN`
unfoldable pub is_reachout_timelock : Text → Bool
is_reachout_timelock message =
    contains_word (codes "463") false message
    || any (λ pattern. contains pattern (map lower message))
        (codes "reachout" ∷ codes "reach-out" ∷ codes "timelock" ∷ codes "time-lock" ∷ [])

-- `MESSAGE_CAPPING_PATTERN`
unfoldable pub is_message_capping : Text → Bool
is_message_capping message =
    contains_word (codes "475") false message
    || any (λ pattern. contains pattern (map lower message)) (codes "capping" ∷ codes "capped" ∷ [])

-- `codeByStatus[status] ?? 'provider_unknown_error'`
unfoldable pub code_by_status : (status : ℕ) → ProviderFailureCode
code_by_status status =
    if status == 401 || status == 403
    then provider_unauthorized
    else if status == 404
    then session_missing
    else if status == 422
    then provider_invalid_request
    else if status == 429
    then provider_rate_limited
    else if status == 500 || (status == 502 || (status == 503 || status == 504))
    then provider_server_error
    else provider_unknown_error

unfoldable pub read_code : (status : ℕ) → (message : Text) → ProviderFailureCode
read_code status message =
    if is_reachout_timelock message
    then connection_restricted
    else if is_message_capping message
    then new_chat_quota_exceeded
    else if status == 422 && is_about_session_state message
    then session_not_ready
    else code_by_status status

unfoldable pub read_retry_after_seconds :
    (number : Text → Option ℕ) → (header : Option Text) → Option ℕ
read_retry_after_seconds number none = none
read_retry_after_seconds number (some header) = elim (trim header) [
  | [] ↦ none
  | c ∷ rest ↦ number (c ∷ rest)
]

unfoldable pub classify_http_status :
    (number : Text → Option ℕ)
    → (status : ℕ) → (message : Text) → (retry_after : Option Text) → ProviderFailure
classify_http_status number status message retry_after =
    create_provider_failure_with (read_code status message)
      (read_retry_after_seconds number retry_after) (some status)

-- What was thrown: its name, the empty text for what is no `Error`, and the `code` of it and of its
-- `cause`, where they are texts.
pub record TransportError : Type 0 where
  pub name : Text
  pub code : Option Text
  pub cause_code : Option Text

unfoldable pub read_system_error_code : TransportError → Option Text
read_system_error_code thrown = elim thrown.code [
  | some code ↦ some code
  | none ↦ thrown.cause_code
]

abbrev pub abort_error_names : List Text
abort_error_names = codes "AbortError" ∷ codes "TimeoutError" ∷ []

abbrev pub pre_connection_error_codes : List Text
pre_connection_error_codes =
    codes "ECONNREFUSED"
    ∷ codes "ENOTFOUND"
    ∷ codes "EAI_AGAIN"
    ∷ codes "EHOSTUNREACH"
    ∷ codes "ENETUNREACH"
    ∷ []

abbrev pub includes_code : List Text → Option Text → Bool
includes_code texts none = false
includes_code texts (some code) = text_includes texts code

unfoldable pub classify_transport_error : TransportError → (was_aborted : Bool) → ProviderFailure
unfolding read_system_error_code
classify_transport_error thrown was_aborted =
    if was_aborted
    then create_provider_failure provider_aborted
    else if text_includes abort_error_names thrown.name
    then create_provider_failure provider_timeout
    else if includes_code pre_connection_error_codes (read_system_error_code thrown)
    then create_provider_failure provider_unreachable
    else create_provider_failure provider_connection_lost
