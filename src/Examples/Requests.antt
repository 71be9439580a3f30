-- ===== src/Examples/Requests.antt =====
-- Requests through the proxy.
use Prim.Native.String.{◌++◌ as join}
use relay_workflow_automatio.Prelude.{
  List, true, false, ◌==◌, String, Option, none, some, [], ◌∷◌, ◌≡◌, ◌↔◌, refl, has, if◌then◌else◌,
}
use relay_workflow_automatio.Js.{integer, nan, num_lt, is_integer, num_gt}
use relay_workflow_automatio.Js.Effect.{ok}
use relay_workflow_automatio.Proxy.Config.{
  Platform, Url, Env, ProxyConfig, proxy_config, configured_origin, origin_of, with_origins,
}
use relay_workflow_automatio.Proxy.Config.Correct.{IsConfigured, proxy_config-IsConfigured}
use relay_workflow_automatio.Proxy.Headers.{Headers, header, request_headers}
use relay_workflow_automatio.Proxy.Trust.{safe_methods, trusted_mutation}
use relay_workflow_automatio.Proxy.Trust.Cookie.{
  IsFromFrontend, trusted_mutation-IsFromFrontend_iff,
}
use relay_workflow_automatio.Proxy.Body.{chunk, bytes, bounded_body, read_body, num_less}
use relay_workflow_automatio.Proxy.Body.Limit.{content, chunks_of, limited, bounded_body-eq-limited}
use relay_workflow_automatio.Proxy.Forward.{
  Request, Forwarded, Upstream, proxy_request, forward_with, forward_body, body_of, send_to,
}
use relay_workflow_automatio.Proxy.Forward.Allowed.{IsAllowed, proxy_request-IsAllowed}

abbrev site : String → String → Url
site origin pathname = record {
  protocol = "https:";
  username = "";
  password = "";
  pathname = pathname;
  search = "";
  hash = "";
  origin = origin;
  href = join origin pathname;
}

abbrev platform : Platform
platform = record {
  parse_url = λ s. if s == "null" then none else some (site s "/");
  resolve_url = λ s base. none;
  text_number = λ s. if s == "3" then integer 3 else nan;
  to_lower = λ s. s;
}

abbrev env : Env
env = record {
  node_env = some "production";
  api_gateway_url = some "https://api";
  frontend_url = some "https://relay";
  api_proxy_timeout_seconds = none;
  api_proxy_max_body_bytes = some "3";
}

abbrev settings : ProxyConfig
settings = record {
  gateway = "https://api";
  frontend = "https://relay";
  timeout = integer 120;
  max_body = integer 3;
}

abbrev headers : Headers
headers = ("cookie", "session") ∷ ("host", "relay") ∷ ("origin", "https://relay") ∷ []

abbrev request : Request
request = record {
  method = "POST";
  url = site "https://relay" "/api/relay/runs";
  headers = headers;
  body = some (chunk (1 ∷ 2 ∷ []) ∷ chunk (3 ∷ []) ∷ []);
}

abbrev unreachable : Forwarded → Option Upstream
unreachable f = none

abbrev forwarded : Forwarded
forwarded = record {
  origin = "https://api";
  pathname = "/runs";
  search = "";
  method = "POST";
  headers = request_headers platform headers;
  body = bytes (1 ∷ 2 ∷ 3 ∷ []);
}

is_configured : proxy_config platform env ≡ ok settings
unfolding proxy_config configured_origin origin_of with_origins is_integer num_lt num_gt
is_configured = refl

proxy_config-IsConfigured_example : IsConfigured platform env settings
proxy_config-IsConfigured_example = proxy_config-IsConfigured platform env settings is_configured

abbrev host_header : String × String
host_header = ("host", "relay")

unsafe : has "POST" safe_methods ≡ false
unfolding has
unsafe = refl

with_cookie : (c : String) × (header "cookie" headers ≡ some c)
unfolding header
with_cookie = ("session", refl)

trusted_mutation-IsFromFrontend_iff_example :
    (trusted_mutation platform "POST" headers "https://relay" ≡ true)
    ↔ IsFromFrontend platform headers "https://relay"
unfolding header
trusted_mutation-IsFromFrontend_iff_example =
    trusted_mutation-IsFromFrontend_iff platform "POST" headers "https://relay" unsafe refl refl

small : num_less (integer 3) (integer 0) ≡ false
unfolding num_less
small = refl

natural : num_lt (integer 3) 0 ≡ false
unfolding num_lt
natural = refl

bounded_body-eq-limited_example :
    bounded_body platform (integer 3) none (some (chunks_of ((1 ∷ 2 ∷ []) ∷ (3 ∷ []) ∷ [])))
    ≡ limited (integer 3) (content ((1 ∷ 2 ∷ []) ∷ (3 ∷ []) ∷ []))
bounded_body-eq-limited_example =
    bounded_body-eq-limited platform (integer 3) none ((1 ∷ 2 ∷ []) ∷ (3 ∷ []) ∷ []) small natural

sent : (proxy_request platform unreachable env request).0 ≡ some forwarded
unfolding proxy_request proxy_config configured_origin origin_of with_origins is_integer num_lt
    num_gt forward_with trusted_mutation has header forward_body body_of bounded_body num_less
    read_body send_to
sent = refl

proxy_request-IsAllowed_example : IsAllowed platform env request forwarded
proxy_request-IsAllowed_example =
    proxy_request-IsAllowed platform env request unreachable forwarded sent

abbrev attributes : List String
attributes = " Domain=relay" ∷ " Path=/auth" ∷ []
