-- ===== src/Http.antt =====
-- platform/http: the HTTP server library, over the http_parser and Boost.Asio libraries.
pub mod Constants
pub mod Router
pub mod Url
pub mod Message
pub mod Parser
pub mod Server
pub mod Connection
