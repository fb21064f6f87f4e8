-- ===== src/Server.antt =====
-- include/Server.hpp and src/Server.cpp: the state (State), the choice of a location and the checks
-- (Route), the pages (Pages), the responses (Respond, Methods) and `makeResponse` (Answer).
mod State
pub mod Route
mod Pages
pub mod Respond
mod Methods
mod Answer
pub mod Choice
pub mod ErrorPages
pub mod Replies
pub mod Tests
pub use State.{Server}
unfoldable pub use Answer.{make_response}
