-- ===== src/Proxy/Config/Correct.antt =====
-- What `proxyConfig` accepts.
use relay_workflow_automatio.Prelude.{
  true, false, not, ◌&&◌, ◌||◌, String, Option, none, some, ◌≡◌, ◌⊎◌, inl, inr, refl, arith,
  Bool-cases,
}
use relay_workflow_automatio.Js.{Num}
use relay_workflow_automatio.Js.Effect.{Result, ok, throws}
use relay_workflow_automatio.Proxy.Config.{
  Platform, Url, Env, ProxyConfig, is_set, set_or, is_plain_origin, within, origin_of,
  configured_origin, with_origins, proxy_config, IsOriginOf, limit_of, is_production,
}

module _ (platform : Platform) where
  origin_of-IsOriginOf :
      (u : Option Url) (setting origin : String)
      → origin_of platform u setting ≡ ok origin
      → (v : Url) × (u ≡ some v) × (is_plain_origin v ≡ true) × (v.origin ≡ origin)
  unfolding origin_of
  origin_of-IsOriginOf none setting origin e = ground (arith, e)
  origin_of-IsOriginOf (some u) setting origin e = elim (Bool-cases (is_plain_origin u)) [
    | inl plain ↦ (u, refl, plain, ground arith)
    | inr other ↦ ground arith
  ]

  configured_origin-IsOriginOf :
      (value setting origin : String)
      → configured_origin platform value setting ≡ ok origin
      → IsOriginOf platform value origin
  unfolding configured_origin
  configured_origin-IsOriginOf value setting origin e =
      origin_of-IsOriginOf (platform.parse_url value) setting origin e

  -- The origins of the configuration are read from the variables or the defaults, and its limits
  -- are whole numbers in their ranges.
  abbrev pub IsConfigured : Env → ProxyConfig → Type 0
  IsConfigured env c =
      IsOriginOf platform (set_or env.api_gateway_url "http://127.0.0.1:8001") c.gateway
      × IsOriginOf platform (set_or env.frontend_url "http://localhost:3000") c.frontend
      × (within 1 600 c.timeout ≡ true)
      × (within 1 104857600 c.max_body ≡ true)
      × ((is_production platform env.node_env ≡ false)
          ⊎ ((is_set env.api_gateway_url ≡ true) × (is_set env.frontend_url ≡ true)))

  limits_kept :
      (gateway frontend : Result String) (timeout max_body : Num) (c : ProxyConfig)
      → with_origins platform gateway frontend timeout max_body ≡ ok c
      → (gateway ≡ ok c.gateway)
        × (frontend ≡ ok c.frontend)
        × (within 1 600 c.timeout ≡ true)
        × (within 1 104857600 c.max_body ≡ true)
  unfolding with_origins
  limits_kept (throws e) frontend timeout max_body c h = ground (arith, h)
  limits_kept (ok gateway) (throws e) timeout max_body c h = ground (arith, h)
  limits_kept (ok gateway) (ok frontend) timeout max_body c h = ground arith

  -- A configuration that `proxyConfig` returns is made of two plain HTTP(S) origins and of whole
  -- limits from 1 to 600 seconds and from 1 to 104857600 bytes, and in production both origins
  -- were set.
  pub proxy_config-IsConfigured :
      (env : Env) (c : ProxyConfig) → proxy_config platform env ≡ ok c → IsConfigured env c
  unfolding proxy_config
  proxy_config-IsConfigured env c h =
      elim (Bool-cases (
        is_production platform env.node_env
        && (not (is_set env.api_gateway_url) || not (is_set env.frontend_url)))) [
          | inl unset ↦ ground arith
          | inr passed ↦
              let (gateway, frontend, timeout, max_body) =
                limits_kept
                  (configured_origin platform (set_or env.api_gateway_url "http://127.0.0.1:8001")
                    "API_GATEWAY_URL")
                  (configured_origin platform (set_or env.frontend_url "http://localhost:3000")
                    "FRONTEND_URL")
                  (limit_of platform env.api_proxy_timeout_seconds 120)
                  (limit_of platform env.api_proxy_max_body_bytes 12582912) c (ground arith) in
              (
                configured_origin-IsOriginOf _ "API_GATEWAY_URL" _ gateway,
                configured_origin-IsOriginOf _ "FRONTEND_URL" _ frontend,
                timeout,
                max_body,
                set_in_production passed,
              )
        ]
    where
      set_in_production :
          (is_production platform env.node_env
              && (not (is_set env.api_gateway_url) || not (is_set env.frontend_url)))
            ≡ false
          → (is_production platform env.node_env ≡ false)
            ⊎ ((is_set env.api_gateway_url ≡ true) × (is_set env.frontend_url ≡ true))
      set_in_production p = ground arith
