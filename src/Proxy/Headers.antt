-- ===== src/Proxy/Headers.antt =====
-- The headers of requests and responses, which the platform keeps by lower-case names, and which
-- of them the proxy passes on.
pub mod Passed
use relay_workflow_automatio.Prelude.{
  Bool, true, false, not, ◌&&◌, ◌||◌, String, Option, none, some, List, [], ◌∷◌, ◌++◌, map, any,
  has, filter, ◌==◌, starts_with, if◌then◌else◌,
}
use relay_workflow_automatio.Js.Text.{split_on, trim}
use relay_workflow_automatio.Proxy.Config.{Platform}

abbrev pub Headers : Type 0
Headers = List (String × String)

unfoldable pub header : String → Headers → Option String
header name [] = none
header name ((n, v) ∷ hs) = if n == name then some v else header name hs

abbrev pub is_present : Option String → Bool
is_present none = false
is_present (some s) = true

abbrev pub named : String → String × String → Bool
named name h = h.0 == name

-- `headers.set(name, value)`
unfoldable pub set_header : String → String → Headers → Headers
set_header name value hs = filter (λ h. not (named name h)) hs ++ (name, value) ∷ []

abbrev pub hop_headers : List String
hop_headers =
    "connection" ∷ "keep-alive" ∷ "proxy-authenticate" ∷ "proxy-authorization" ∷ "te" ∷ "trailer"
    ∷ "transfer-encoding" ∷ "upgrade" ∷ []

-- `(headers.get("connection") || "").split(",").map((value) => value.trim().toLowerCase())`
abbrev pub tokens_of : Platform → Option String → List String
tokens_of platform none = "" ∷ []
tokens_of platform (some v) = map (λ t. platform.to_lower (trim t)) (split_on b',' v)

unfoldable pub connection_tokens : Platform → Headers → List String
connection_tokens platform hs = tokens_of platform (header "connection" hs)

-- the headers that stay on the way to the gateway
unfoldable pub is_forwarded : List String → String → Bool
is_forwarded tokens name = not (
    has name hop_headers
    || has name tokens
    || has name ("host" ∷ "content-length" ∷ "forwarded" ∷ "x-real-ip" ∷ [])
    || starts_with name "x-forwarded-")

-- the headers that stay on the way back
unfoldable pub is_returned : List String → String → Bool
is_returned tokens name = not (
    has name hop_headers
    || has name tokens
    || has name ("set-cookie" ∷ "content-length" ∷ "content-encoding" ∷ [])
    || starts_with name "access-control-")

unfoldable pub request_headers : Platform → Headers → Headers
request_headers platform hs =
    set_header "accept-encoding" "identity"
      (filter (λ h. is_forwarded (connection_tokens platform hs) h.0) hs)

unfoldable pub kept_headers : Platform → Headers → Headers
kept_headers platform hs = filter (λ h. is_returned (connection_tokens platform hs) h.0) hs
