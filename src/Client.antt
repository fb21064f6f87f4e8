-- ===== src/Client.antt =====
-- include/Client.hpp and src/Client.cpp: the parsers (Parse), `initParser` and `recvRequest`
-- (Receive), `passResponse` (Send).
mod State
mod Parse
pub mod Receive
pub mod Send
mod Tests
pub use State.{Client, new_client}
