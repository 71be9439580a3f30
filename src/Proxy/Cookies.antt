-- ===== src/Proxy/Cookies.antt =====
-- `proxyCookie` and `proxyLocation`: cookies and redirects of the gateway, moved to the proxy.
pub mod Domain
use Prim.Native.String.{◌++◌ as join}
use relay_workflow_automatio.Prelude.{
  ℕ, zero, suc, ◌+◌, Bool, true, false, not, ◌&&◌, ◌||◌, code, String, Option, none, some, List, [],
  ◌∷◌, map, filter, ◌==◌, eqb, if◌then◌else◌,
}
use relay_workflow_automatio.Js.Text.{split_on, is_space, is_capital, trim_start}
use relay_workflow_automatio.Js.Effect.{Result, ok, throws, type_error}
use relay_workflow_automatio.Proxy.Config.{Platform, Url}

abbrev pub proxy_prefix : String
proxy_prefix = "/api/relay"

-- a letter of the pattern, which stands for its capital too
abbrev same_letter : ℕ → ℕ → Bool
same_letter p c = eqb p c || (is_capital c && eqb p (c + 32))

-- the rest after the pattern, by the rule of the flag `i`
unfoldable pub after_letters : String → String → Option String
after_letters String.[] s = some s
after_letters (String.◌∷◌ c p) String.[] = none
after_letters (String.◌∷◌ c p) (String.◌∷◌ d s) =
    let rest = after_letters p s in if same_letter (code c) (code d) then rest else none

abbrev is_match : Option String → Bool
is_match none = false
is_match (some rest) = true

-- `\s*domain=` at the beginning of a part
unfoldable pub is_domain : String → Bool
is_domain part = is_match (after_letters "domain=" (trim_start part))

abbrev begins_path : String → Bool
begins_path String.[] = true
begins_path (String.◌∷◌ c s) = eqb (code c) b'/'

abbrev is_auth_rest : Option String → Bool
is_auth_rest none = false
is_auth_rest (some rest) = begins_path rest

-- `\/auth(?:\/[^;]*)?` up to the end of the part
abbrev is_auth_path : String → Bool
is_auth_path value = is_auth_rest (after_letters "/auth" value)

abbrev first_letters : ℕ → String → String
first_letters zero s = ""
first_letters (suc n) String.[] = ""
first_letters (suc n) (String.◌∷◌ c s) = String.◌∷◌ c (first_letters n s)

-- the value after `path=`, with the prefix before it if it is under /auth
abbrev scoped_value : String → Option String → String
scoped_value part none = part
scoped_value part (some value) =
    if is_auth_path value then join (first_letters 5 part) (join proxy_prefix value) else part

unfoldable pub scope_path : String → String
scope_path String.[] = ""
scope_path (String.◌∷◌ c s) =
    let rest = scope_path s in
    if is_space (code c)
    then String.◌∷◌ c rest
    else scoped_value (String.◌∷◌ c s) (after_letters "path=" (String.◌∷◌ c s))

-- the attributes of a cookie after its first part
unfoldable pub proxy_attributes : List String → List String
proxy_attributes parts = map scope_path (filter (λ part. not (is_domain part)) parts)

unfoldable pub join_parts : String → List String → String
join_parts first [] = first
join_parts first (part ∷ parts) = join first (join ";" (join_parts part parts))

abbrev of_parts : List String → String
of_parts [] = ""
of_parts (first ∷ attributes) = join_parts first (proxy_attributes attributes)

unfoldable pub proxy_cookie : String → String
proxy_cookie cookie = of_parts (split_on b';' cookie)

module _ (platform : Platform) where
  abbrev moved : String → Option Url → Result (Option String)
  moved origin none = throws type_error
  moved origin (some location) =
      if not (location.protocol == "http:" || location.protocol == "https:")
      then ok none
      else if location.origin == origin
      then ok
          (some (join proxy_prefix (join location.pathname (join location.search location.hash))))
      else ok (some location.href)

  -- the target is given by its origin and its whole text
  unfoldable pub proxy_location : String → String → String → Result (Option String)
  proxy_location value origin target = moved origin (platform.resolve_url value target)
