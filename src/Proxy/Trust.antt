-- ===== src/Proxy/Trust.antt =====
-- `trustedMutation`: which requests may change something.
pub mod Cookie
use relay_workflow_automatio.Prelude.{
  Bool, true, false, String, Option, none, some, List, [], ◌∷◌, has, ◌==◌, if◌then◌else◌,
}
use relay_workflow_automatio.Proxy.Config.{Platform, Url, is_set, set_or}
use relay_workflow_automatio.Proxy.Headers.{Headers, header, is_present}

abbrev pub safe_methods : List String
safe_methods = "GET" ∷ "HEAD" ∷ "OPTIONS" ∷ []

-- `origin === frontend` for the header's text
abbrev pub is_value : Option String → String → Bool
is_value none t = false
is_value (some s) t = s == t

abbrev from_origin : Option Url → String → Bool
from_origin none frontend = false
from_origin (some u) frontend = u.origin == frontend

-- `new URL(null)` reads the text "null".
abbrev text_or_null : Option String → String
text_or_null none = "null"
text_or_null (some s) = s

-- is the Referer a URL of the frontend?
unfoldable pub is_referred : Platform → Headers → String → Bool
is_referred platform hs frontend =
    from_origin (platform.parse_url (text_or_null (header "referer" hs))) frontend

unfoldable pub trusted_mutation : Platform → String → Headers → String → Bool
trusted_mutation platform method hs frontend =
    if has method safe_methods
    then true
    else if is_set (header "origin" hs)
    then is_value (header "origin" hs) frontend
    else if is_value (header "sec-fetch-site" hs) "cross-site"
    then false
    else if is_present (header "cookie" hs)
    then is_referred platform hs frontend
    else true
