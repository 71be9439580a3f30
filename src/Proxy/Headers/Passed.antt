-- ===== src/Proxy/Headers/Passed.antt =====
-- Which headers reach the gateway.
use text.Mathlib.TextBridge.{IsPrefix}
use relay_workflow_automatio.Prelude.{String, Option, none, some, List, [], ◌∷◌, ◌≢◌, In}
use relay_workflow_automatio.Js.Text.{split_on, trim}
use relay_workflow_automatio.Proxy.Config.{Platform}
use relay_workflow_automatio.Proxy.Headers.{Headers, header}

-- Headers that are about one connection only, and those that would let a client speak for the proxy.
abbrev pub connection_headers : List String
connection_headers =
    "connection" ∷ "keep-alive" ∷ "proxy-authenticate" ∷ "proxy-authorization" ∷ "te" ∷ "trailer"
    ∷ "transfer-encoding" ∷ "upgrade" ∷ []

abbrev pub origin_headers : List String
origin_headers = "host" ∷ "content-length" ∷ "forwarded" ∷ "x-real-ip" ∷ []

-- The value of the connection header does not name a header. A missing value is read as one empty
-- name.
abbrev pub IsUnnamed : Platform → Option String → String → Type 0
IsUnnamed platform none name = name ≢ ""
IsUnnamed platform (some v) name =
    (part : String) → In part (split_on b',' v) → platform.to_lower (trim part) ≢ name

pub record MayPass (platform : Platform) (hs : Headers) (name : String) : Type 0 where
  pub lasting : In name connection_headers → ⊥
  pub foreign : In name origin_headers → ⊥
  pub unforwarded : IsPrefix "x-forwarded-" name → ⊥
  pub unnamed : IsUnnamed platform (header "connection" hs) name
  pub other : name ≢ "accept-encoding"
