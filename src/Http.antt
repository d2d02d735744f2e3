-- ===== src/Http.antt =====
-- internal/transport/http: the requests that it accepts, what it answers, and its handlers.
pub mod Requests
pub mod Responses
pub mod Replies
pub mod Handlers
pub mod Profile
pub mod Router
