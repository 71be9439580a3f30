-- ===== src/Proxy/Forward/Allowed.antt =====
-- What the proxy sends to the gateway.
use Prim.Native.String.{◌++◌ as join}
use relay_workflow_automatio.Prelude.{
  ℕ, true, false, Option, some, List, ◌≡◌, ◌⊎◌, inl, inr, refl, arith, Bool-cases, length,
  starts_with,
}
use relay_workflow_automatio.Js.{Num, nan, infinite, finite, num_lt}
use relay_workflow_automatio.Js.Effect.{Result, ok, throws}
use relay_workflow_automatio.Proxy.Config.{Platform, Env, ProxyConfig, within, proxy_config}
use relay_workflow_automatio.Proxy.Config.Correct.{proxy_config-IsConfigured}
use relay_workflow_automatio.Proxy.Headers.{header, request_headers}
use relay_workflow_automatio.Proxy.Trust.{trusted_mutation}
use relay_workflow_automatio.Proxy.Cookies.{proxy_prefix}
use relay_workflow_automatio.Proxy.Body.{Body, no_body, bytes, over_limit, stopped, unreadable}
use relay_workflow_automatio.Proxy.Body.Limit.{fits, bounded_body-fits}
use relay_workflow_automatio.Proxy.Forward.{
  Request, Forwarded, Upstream, drop_letters, forward_body, body_of, forward_with, send_to,
  proxy_request,
}

-- a limit of at least one is no limit below zero
natural_limit : (n : Num) → within 1 104857600 n ≡ true → num_lt n 0 ≡ false
unfolding num_lt
natural_limit nan h = refl
natural_limit (infinite negative) h = ground arith
natural_limit (finite false m k) h = ground arith
natural_limit (finite true m k) h = ground arith

module _ (platform : Platform) (env : Env) (r : Request) where
  -- The request comes from the frontend as far as it changes something, is under the proxy's path,
  -- and goes to the configured gateway, with the headers that may be forwarded and a body within
  -- the limit.
  abbrev pub IsAllowed : Forwarded → Type 0
  IsAllowed f =
      (config : ProxyConfig) × (proxy_config platform env ≡ ok config)
      × (trusted_mutation platform r.method r.headers config.frontend ≡ true)
      × (starts_with r.url.pathname (join proxy_prefix "/") ≡ true)
      × (f.origin ≡ config.gateway)
      × (f.pathname ≡ drop_letters 10 r.url.pathname)
      × (f.search ≡ r.url.search)
      × (f.method ≡ r.method)
      × (f.headers ≡ request_headers platform r.headers)
      × (fits config.max_body f.body ≡ true)

  module _ (fetch : Forwarded → Option Upstream) where
    body_of-fits :
        (config : ProxyConfig) (bs : List ℕ)
        → num_lt config.max_body 0 ≡ false
        → body_of platform fetch config r ≡ bytes bs
        → num_lt config.max_body (length bs) ≡ false
    unfolding body_of
    body_of-fits config bs natural e = ground (
      arith,
      bounded_body-fits platform config.max_body (header "content-length" r.headers) r.body bs
          natural,
    )

    sent_of :
        (config : ProxyConfig) (body : Body) (f : Forwarded)
        → (forward_body platform fetch config r body).0 ≡ some f
        → (f.origin ≡ config.gateway)
          × (f.pathname ≡ drop_letters 10 r.url.pathname)
          × (f.search ≡ r.url.search)
          × (f.method ≡ r.method)
          × (f.headers ≡ request_headers platform r.headers)
          × (f.body ≡ body)
          × ((body ≡ no_body) ⊎ ((bs : List ℕ) × (body ≡ bytes bs)))
    unfolding forward_body send_to
    sent_of config no_body f e = (
      ground arith,
      ground arith,
      ground arith,
      ground arith,
      ground arith,
      ground arith,
      inl refl,
    )
    sent_of config (bytes bs) f e = (
      ground arith,
      ground arith,
      ground arith,
      ground arith,
      ground arith,
      ground arith,
      inr (bs, refl),
    )
    sent_of config over_limit f e = ground arith
    sent_of config (stopped true) f e = ground arith
    sent_of config (stopped false) f e = ground arith
    sent_of config unreadable f e = ground arith

    IsAllowed-of :
        (c : Result ProxyConfig) (f : Forwarded)
        → proxy_config platform env ≡ c
        → (forward_with platform fetch r c).0 ≡ some f
        → IsAllowed f
    unfolding forward_with
    IsAllowed-of (throws e) f h sent = ground arith
    IsAllowed-of (ok config) f h sent =
        elim (Bool-cases (trusted_mutation platform r.method r.headers config.frontend)) [
          | inr untrusted ↦ ground arith
          | inl trusted ↦ elim (Bool-cases (starts_with r.url.pathname (join proxy_prefix "/"))) [
            | inr outside ↦ ground arith
            | inl inside ↦
                let (origin, pathname, search, method, headers, body, kind) =
                  sent_of config (body_of platform fetch config r) f (ground arith) in
                (
                  config,
                  h,
                  trusted,
                  inside,
                  origin,
                  pathname,
                  search,
                  method,
                  headers,
                  small config f body kind h,
                )
          ]
        ]
      where
        small :
            (config : ProxyConfig) (f : Forwarded)
            → f.body ≡ body_of platform fetch config r
            → (body_of platform fetch config r ≡ no_body)
              ⊎ ((bs : List ℕ) × (body_of platform fetch config r ≡ bytes bs))
            → proxy_config platform env ≡ ok config
            → fits config.max_body f.body ≡ true
        small config f body (inl empty) known = rw (body, empty) refl
        small config f body (inr (bs, whole)) known =
            let (gateway, frontend, timeout, limit, set) =
              proxy_config-IsConfigured platform env config known in
            let bounded = body_of-fits config bs (natural_limit config.max_body limit) whole in
            rw (body, whole) (rw bounded refl)

    -- Whatever reaches the gateway is an allowed request.
    pub proxy_request-IsAllowed :
        (f : Forwarded) → (proxy_request platform fetch env r).0 ≡ some f → IsAllowed f
    unfolding proxy_request
    proxy_request-IsAllowed f sent = IsAllowed-of (proxy_config platform env) f refl sent
