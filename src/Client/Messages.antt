-- ===== src/Client/Messages.antt =====
-- lib/api.js: addresses, headers, the reading of responses and the texts of errors.
use Prim.Native.String.{◌++◌}
use relay_workflow_automatio.Prelude.{
  ℕ, Bool, not, ◌&&◌, String, Option, none, some, List, [], ◌∷◌, ◌==◌, leb, filter, map,
  if◌then◌else◌,
}
use relay_workflow_automatio.Js.{
  integer, Value, str, arr, obj, end, field, prop, items, is_text, is_nullish,
}
use relay_workflow_automatio.Js.Host.{Host}
use relay_workflow_automatio.Js.Convert.{text_or_empty}
use relay_workflow_automatio.Js.Effect.{Error, type_error, Result, ok, throws}
use relay_workflow_automatio.Proxy.Headers.{Headers, header, is_present, named, set_header}

-- What `fetch` resolves to, with its body read as a text.
pub record Response : Type 0 where
  pub status : ℕ
  pub text : String

-- `response.ok`
unfoldable pub is_ok : Response → Bool
is_ok r = leb 200 r.status && leb r.status 299

unfoldable pub parse_response : Host → String → Value
parse_response host text =
    if text == ""
    then obj end
    else elim (host.parse_json text) [ none ↦ obj (field "detail" (str text) end) | some v ↦ v ]

module _ (host : Host) where
  -- `vs.join(separator)`
  abbrev later_texts : String → List Value → String
  later_texts separator [] = ""
  later_texts separator (v ∷ vs) = separator ++ (text_or_empty host v ++ later_texts separator vs)

  abbrev joined : String → List Value → String
  joined separator [] = ""
  joined separator (v ∷ vs) = text_or_empty host v ++ later_texts separator vs

  -- the place that a message is about
  abbrev place : Value → String
  place (arr xs) = joined "." (filter (λ part. not (is_text part "body")) (items xs))
  place _ = ""

  abbrev placed : Value → Value → String
  placed loc (str msg) = if place loc == "" then msg else place loc ++ (": " ++ msg)
  placed loc _ = ""

  -- the text of an item of a list of details, empty where it is dropped
  unfoldable pub item_message : Value → String
  item_message (str s) = s
  item_message item = placed (prop item "loc") (prop item "msg")

  abbrev own_message : Value → Value → Option String
  own_message (str message) msg = some message
  own_message message (str msg) = some msg
  own_message message msg = none

  abbrev texts_message : List String → Option String
  texts_message [] = none
  texts_message (s ∷ ss) = some (joined " " (map str (s ∷ ss)))

  unfoldable pub get_error_message : Value → Option String
  unfolding item_message
  get_error_message (str s) = some s
  get_error_message (arr xs) =
      texts_message (filter (λ s. not (s == "")) (map item_message (items xs)))
  get_error_message (obj fs) = own_message (prop (obj fs) "message") (prop (obj fs) "msg")
  get_error_message _ = none

  -- `a || b` on texts that may be null
  abbrev or_message : Option String → String → String
  or_message none later = later
  or_message (some s) later = if s == "" then later else s

  unfoldable pub failure_message : Value → String
  failure_message body =
      or_message (get_error_message (prop body "detail"))
        (or_message (get_error_message (prop body "message")) "Something went wrong")

  -- Reading a property of `null` throws, so a failure whose body is `null` has no status.
  abbrev failure : ℕ → Value → Error
  failure status body =
      if is_nullish body
      then type_error
      else record { message = failure_message body; status = some (integer status); code = none }

  -- how a request ends with its last response
  unfoldable pub finish : Response → Result Value
  unfolding is_ok
  finish r =
      let body = parse_response host r.text in
      if is_ok r then ok body else throws (failure r.status body)

-- `apiUrl`: the base is the configured one without a slash at its end, or the proxy's.
unfoldable pub without_slash : String → String
without_slash String.[] = ""
without_slash (String.◌∷◌ c String.[]) = if String.◌∷◌ c "" == "/" then "" else String.◌∷◌ c ""
without_slash (String.◌∷◌ c s) = String.◌∷◌ c (without_slash s)

abbrev or_text : Option String → String → String
or_text none later = later
or_text (some s) later = if s == "" then later else s

unfoldable pub api_base : Option String → String
api_base configured =
    or_text (elim configured [ none ↦ none | some s ↦ some (without_slash s) ]) "/api/relay"

-- the headers of a request: a form's type is left to the browser, which adds the boundary
unfoldable pub content_headers : Bool → Headers → Headers
content_headers is_form headers =
    if is_form
    then filter (λ h. not (named "content-type" h)) headers
    else if is_present (header "content-type" headers)
    then headers
    else set_header "content-type" "application/json" headers
