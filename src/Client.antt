-- ===== src/Client.antt =====
-- frontend/src/lib/api.js: the client of the API. `Messages` reads responses and errors, `Session` is
-- any number of requests at once, with the refresh of the tokens that they share.
pub mod Messages
pub mod Session
