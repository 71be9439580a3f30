-- ===== src/Proxy/Forward.antt =====
-- `proxyRequest`: the whole way of a request through the proxy.
pub mod Allowed
use Prim.Native.String.{◌++◌ as join}
use relay_workflow_automatio.Prelude.{
  ℕ, zero, suc, Bool, true, false, not, String, Option, none, some, List, [], ◌∷◌, map, has, ◌==◌,
  starts_with, if◌then◌else◌,
}
use relay_workflow_automatio.Js.Effect.{Result, ok, throws}
use relay_workflow_automatio.Proxy.Config.{Platform, Url, Env, ProxyConfig, is_set, proxy_config}
use relay_workflow_automatio.Proxy.Headers.{
  Headers, header, set_header, request_headers, kept_headers,
}
use relay_workflow_automatio.Proxy.Trust.{safe_methods, trusted_mutation}
use relay_workflow_automatio.Proxy.Cookies.{proxy_prefix, proxy_cookie, proxy_location}
use relay_workflow_automatio.Proxy.Body.{
  Read, Body, no_body, bytes, over_limit, stopped, unreadable, bounded_body,
}

pub record Request : Type 0 where
  pub method : String
  pub url : Url
  pub headers : Headers
  pub body : Option (List Read)

-- What is sent to the gateway: the target's origin, path and query, and the rest of the request.
pub record Forwarded : Type 0 where
  pub origin : String
  pub pathname : String
  pub search : String
  pub method : String
  pub headers : Headers
  pub body : Body

-- What the gateway answers; its `set-cookie` headers are kept apart.
pub record Upstream : Type 0 where
  pub status : ℕ
  pub headers : Headers
  pub cookies : List String
  pub body : List ℕ

pub data Reply : Type 0 where
  refused : ℕ → String → Reply
  relayed : ℕ → Headers → List String → Option (List ℕ) → Reply

-- What was sent to the gateway, if anything, and the response.
abbrev pub Passage : Type 0
Passage = Option Forwarded × Reply

abbrev drop_letters : ℕ → String → String
drop_letters zero s = s
drop_letters (suc n) String.[] = ""
drop_letters (suc n) (String.◌∷◌ c s) = drop_letters n s

module _ (platform : Platform) (fetch : Forwarded → Option Upstream) where
  -- the headers of the response, once the redirect is settled
  abbrev relay : String → Upstream → Headers → Reply
  relay method u hs =
      relayed u.status (set_header "cache-control" "no-store" hs) (map proxy_cookie u.cookies)
        (if method == "HEAD" then none else some u.body)

  abbrev redirected : String → Upstream → Headers → Result (Option String) → Reply
  redirected method u hs (throws e) = refused 502 "API service unavailable"
  redirected method u hs (ok none) = refused 502 "Invalid API redirect"
  redirected method u hs (ok (some location)) = relay method u (set_header "location" location hs)

  abbrev text_of : Option String → String
  text_of none = ""
  text_of (some s) = s

  unfoldable pub respond_with : Forwarded → Option Upstream → Reply
  respond_with f none = refused 502 "API service unavailable"
  respond_with f (some u) =
      if is_set (header "location" u.headers)
      then redirected f.method u (kept_headers platform u.headers) (
          proxy_location platform (text_of (header "location" u.headers)) f.origin
            (join f.origin (join f.pathname f.search)))
      else relay f.method u (kept_headers platform u.headers)

  unfoldable pub send_to : Forwarded → Passage
  send_to f = (some f, respond_with f (fetch f))

  -- the request for the gateway, unless its body was not accepted
  unfoldable pub forward_body : ProxyConfig → Request → Body → Passage
  forward_body config r over_limit = (none, refused 413 "Request body could not be accepted")
  forward_body config r unreadable = (none, refused 400 "Request body could not be accepted")
  forward_body config r (stopped true) = (none, refused 400 "Request was cancelled")
  forward_body config r (stopped false) = (none, refused 408 "Request body timed out")
  forward_body config r body = send_to (record {
    origin = config.gateway;
    pathname = drop_letters 10 r.url.pathname;
    search = r.url.search;
    method = r.method;
    headers = request_headers platform r.headers;
    body = body;
  })

  unfoldable pub body_of : ProxyConfig → Request → Body
  body_of config r =
      if has r.method safe_methods
      then no_body
      else bounded_body platform config.max_body (header "content-length" r.headers) r.body

  unfoldable pub forward_with : Request → Result ProxyConfig → Passage
  forward_with r (throws e) = (none, refused 503 "API proxy is not configured")
  forward_with r (ok config) =
      if not (trusted_mutation platform r.method r.headers config.frontend)
      then (none, refused 403 "Untrusted request origin")
      else if not (starts_with r.url.pathname (join proxy_prefix "/"))
      then (none, refused 404 "Not found")
      else forward_body config r (body_of config r)

  unfoldable pub proxy_request : Env → Request → Passage
  proxy_request env r = forward_with r (proxy_config platform env)

-- `gatewayReady`: the status of `/ready`, where `ask` tells whether the answer to a URL is `ok`.
module _ (platform : Platform) (ask : String → Option Bool) where
  abbrev ready_reply : Option Bool → ℕ × String
  ready_reply none = (503, "API service unavailable")
  ready_reply (some is_ok) = if is_ok then (200, "ready") else (503, "API service unavailable")

  abbrev ready_with : Result ProxyConfig → ℕ × String
  ready_with (throws e) = (503, "API service unavailable")
  ready_with (ok config) = ready_reply (ask (join config.gateway "/ready"))

  unfoldable pub gateway_ready : Env → ℕ × String
  gateway_ready env = ready_with (proxy_config platform env)
