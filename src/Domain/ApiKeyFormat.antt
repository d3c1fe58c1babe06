-- ===== src/Domain/ApiKeyFormat.antt =====
-- packages/domain/src/tenant/api-key-format.ts: a token is a prefix, a public identifier and a
-- secret.
pub mod Segments
pub mod Laws
use whatsapp_notification_pl.Prelude.{
  ℕ, ◌+◌, ◌-◌, Bool, false, not, ◌&&◌, ◌||◌, Option, none, some, List, [], ◌∷◌, ◌++◌, leb, ◌==◌,
  if◌then◌else◌, length, take, drop, all, Text, text_eq, codes,
}

pub data ApiKeyEnvironment : Type 0 where
  live test : ApiKeyEnvironment

abbrev pub environment_name : ApiKeyEnvironment → Text
environment_name live = codes "live"
environment_name test = codes "test"

abbrev pub api_key_identifier_length : ℕ
api_key_identifier_length = 12

abbrev pub api_key_secret_length : ℕ
api_key_secret_length = 32

pub record ParsedApiKey : Type 0 where
  pub environment : ApiKeyEnvironment
  pub identifier : Text
  pub secret : Text

-- `TOKEN_ALPHABET`, of one character.
abbrev pub is_token_character : ℕ → Bool
is_token_character c =
    (leb b'A' c && leb c b'Z') || ((leb b'a' c && leb c b'z') || (leb b'0' c && leb c b'9'))

abbrev pub underscore : ℕ
underscore = b'_'

-- The text is never empty where it is used: `+` asks for one character at least.
unfoldable pub is_token : Text → Bool
is_token [] = false
is_token (c ∷ rest) = all is_token_character (c ∷ rest)

unfoldable pub api_key_prefix : ApiKeyEnvironment → Text
api_key_prefix environment = codes "wnp_" ++ (environment_name environment ++ (underscore ∷ []))

unfoldable pub format_api_key : ApiKeyEnvironment → (identifier secret : Text) → Text
unfolding api_key_prefix
format_api_key environment identifier secret = api_key_prefix environment ++ (identifier ++ secret)

unfoldable pub api_key_display_prefix : ApiKeyEnvironment → (identifier : Text) → Text
unfolding api_key_prefix
api_key_display_prefix environment identifier = api_key_prefix environment ++ identifier

-- `secret.slice(-4)`
unfoldable pub api_key_last_four : Text → Text
api_key_last_four secret = drop (length secret - 4) secret

abbrev pub prepend : ℕ → List Text → List Text
prepend c [] = (c ∷ []) ∷ []
prepend c (segment ∷ segments) = (c ∷ segment) ∷ segments

-- `token.split('_')`
unfoldable pub split : Text → List Text
split [] = [] ∷ []
split (c ∷ rest) =
    let segments = split rest in if c == underscore then [] ∷ segments else prepend c segments

unfoldable pub to_environment : Text → Option ApiKeyEnvironment
to_environment candidate =
    if text_eq candidate (codes "live")
    then some live
    else if text_eq candidate (codes "test")
    then some test
    else none

abbrev pub parse_body : (body : Text) → Option ApiKeyEnvironment → Option ParsedApiKey
parse_body body none = none
parse_body body (some environment) =
    if not (length body == api_key_identifier_length + api_key_secret_length)
    then none
    else if not (is_token body)
    then none
    else some (record {
      environment = environment;
      identifier = take api_key_identifier_length body;
      secret = drop api_key_identifier_length body;
    })

abbrev pub parse_segments : List Text → Option ParsedApiKey
parse_segments (namespace ∷ environment_candidate ∷ body ∷ []) =
    if not (text_eq namespace (codes "wnp"))
    then none
    else parse_body body (to_environment environment_candidate)
parse_segments _ = none

-- `none` is `undefined`; `parseApiKey` throws where this gives it.
unfoldable pub try_parse_api_key : Text → Option ParsedApiKey
unfolding split to_environment is_token
try_parse_api_key token = parse_segments (split token)
