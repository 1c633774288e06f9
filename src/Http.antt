-- ===== src/Http.antt =====
-- components/http: the server, its middleware and its pages.
pub mod Pages
pub mod Params
pub mod Recovery
pub mod Server
