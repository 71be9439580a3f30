-- ===== src/Proxy.antt =====
-- lib/server/apiProxy.js: the proxy between the browser and the API gateway.
pub mod Config
pub mod Trust
pub mod Headers
pub mod Cookies
pub mod Body
pub mod Forward
