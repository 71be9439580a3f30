-- ===== src/Proxy/Config.antt =====
-- `configuredOrigin` and `proxyConfig`, with the parts of URL that the proxy uses.
pub mod Correct
use Prim.Native.String.{◌++◌ as join}
use relay_workflow_automatio.Prelude.{
  ℕ, Bool, true, false, not, ◌&&◌, ◌||◌, String, Option, none, some, ◌==◌, ◌≡◌, if◌then◌else◌,
}
use relay_workflow_automatio.Js.{Num, integer, is_integer, num_lt, num_gt}
use relay_workflow_automatio.Js.Effect.{error, Result, ok, throws}

pub record Url : Type 0 where
  pub protocol : String
  pub username : String
  pub password : String
  pub pathname : String
  pub search : String
  pub hash : String
  pub origin : String
  pub href : String

-- What the server's platform supplies: `new URL(text)` and `new URL(text, base)`, `none` where
-- they throw, `Number(text)` and `text.toLowerCase()`.
pub record Platform : Type 0 where
  pub parse_url : String → Option Url
  pub resolve_url : String → String → Option Url
  pub text_number : String → Num
  pub to_lower : String → String

-- The variables of `process.env` that the proxy reads.
pub record Env : Type 0 where
  pub node_env : Option String
  pub api_gateway_url : Option String
  pub frontend_url : Option String
  pub api_proxy_timeout_seconds : Option String
  pub api_proxy_max_body_bytes : Option String

pub record ProxyConfig : Type 0 where
  pub gateway : String
  pub frontend : String
  pub timeout : Num
  pub max_body : Num

-- a variable that is set to a text that is not empty
abbrev pub is_set : Option String → Bool
is_set none = false
is_set (some s) = not (s == "")

abbrev pub set_or : Option String → String → String
set_or none default = default
set_or (some s) default = if s == "" then default else s

-- an HTTP(S) origin and nothing more
abbrev pub is_plain_origin : Url → Bool
is_plain_origin u =
    (u.protocol == "http:" || u.protocol == "https:")
    && u.username == ""
    && u.password == ""
    && u.pathname == "/"
    && u.search == ""
    && u.hash == ""

abbrev pub within : ℕ → ℕ → Num → Bool
within lo hi n = is_integer n && not (num_lt n lo) && not (num_gt n hi)

module _ (platform : Platform) where
  abbrev not_origin : String → String
  not_origin setting = join setting " must be an HTTP(S) origin"

  unfoldable pub origin_of : Option Url → String → Result String
  origin_of none setting = throws (error (not_origin setting))
  origin_of (some u) setting =
      if is_plain_origin u then ok u.origin else throws (error (not_origin setting))

  unfoldable pub configured_origin : String → String → Result String
  configured_origin value setting = origin_of (platform.parse_url value) setting

  -- `Number(variable || default)`
  abbrev limit_of : Option String → ℕ → Num
  limit_of none default = integer default
  limit_of (some s) default = if s == "" then integer default else platform.text_number s

  unfoldable pub with_origins : Result String → Result String → Num → Num → Result ProxyConfig
  with_origins (throws e) frontend timeout max_body = throws e
  with_origins (ok gateway) (throws e) timeout max_body = throws e
  with_origins (ok gateway) (ok frontend) timeout max_body =
      if within 1 600 timeout && within 1 104857600 max_body
      then ok (record {
        gateway = gateway;
        frontend = frontend;
        timeout = timeout;
        max_body = max_body;
      })
      else throws (error "Invalid API proxy limits")

  abbrev is_production : Option String → Bool
  is_production none = false
  is_production (some s) = s == "production"

  unfoldable pub proxy_config : Env → Result ProxyConfig
  proxy_config env =
      if is_production env.node_env
        && (not (is_set env.api_gateway_url) || not (is_set env.frontend_url))
      then throws (error "API_GATEWAY_URL and FRONTEND_URL are required in production")
      else with_origins
          (configured_origin (set_or env.api_gateway_url "http://127.0.0.1:8001") "API_GATEWAY_URL")
          (configured_origin (set_or env.frontend_url "http://localhost:3000") "FRONTEND_URL")
          (limit_of env.api_proxy_timeout_seconds 120)
          (limit_of env.api_proxy_max_body_bytes 12582912)

  -- A text that `configuredOrigin` accepts: it parses, as an HTTP(S) URL with nothing but an origin.
  abbrev pub IsOriginOf : String → String → Type 0
  IsOriginOf value origin =
      (u : Url) × (platform.parse_url value ≡ some u)
      × (is_plain_origin u ≡ true)
      × (u.origin ≡ origin)
