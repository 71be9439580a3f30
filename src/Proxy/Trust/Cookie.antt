-- ===== src/Proxy/Trust/Cookie.antt =====
-- Requests that carry a cookie and may change something come from the frontend.
use relay_workflow_automatio.Prelude.{
  true, false, String, ◌≡◌, ◌⊎◌, ◌↔◌, inl, inr, arith, eq_iff, ◌==◌, has, Option-cases,
}
use relay_workflow_automatio.Proxy.Config.{Platform, is_set}
use relay_workflow_automatio.Proxy.Headers.{Headers, header, is_present}
use relay_workflow_automatio.Proxy.Trust.{safe_methods, is_value, is_referred, trusted_mutation}

-- The Origin is the frontend; or there is none, the browser does not call the request cross-site,
-- and the Referer is a URL of the frontend.
abbrev pub IsFromFrontend : Platform → Headers → String → Type 0
IsFromFrontend platform hs frontend =
    (is_value (header "origin" hs) frontend ≡ true)
    ⊎ ((is_set (header "origin" hs) ≡ false)
        × (is_value (header "sec-fetch-site" hs) "cross-site" ≡ false)
        × (is_referred platform hs frontend ≡ true))

-- A request with a method that is not safe and with a cookie is trusted exactly when it is from
-- the frontend, whose origin is not empty.
pub trusted_mutation-IsFromFrontend_iff :
    (platform : Platform) (method : String) (hs : Headers) (frontend : String)
    → has method safe_methods ≡ false
    → is_present (header "cookie" hs) ≡ true
    → (frontend == "") ≡ false
    → (trusted_mutation platform method hs frontend ≡ true) ↔ IsFromFrontend platform hs frontend
unfolding trusted_mutation
trusted_mutation-IsFromFrontend_iff platform method hs frontend unsafe cookie named =
    elim (Option-cases (header "origin" hs)) [
      | inl absent ↦ rw (unsafe, cookie, absent) (ground arith)
      | inr (origin, given) ↦
          rw (unsafe, cookie, given) (ground (arith, eq_iff origin "", eq_iff origin frontend))
    ]
