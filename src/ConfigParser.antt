-- ===== src/ConfigParser.antt =====
-- include/ConfigParser.hpp and src/ConfigParser.cpp: the reader of the configuration, line by line
-- (Reader), what a line may say (Directives, LocationLines, ServerLines), the blocks (Blocks, Http), and what
-- is shared by the proofs that nothing aborts (Safe).
pub mod Replies
pub mod Reader
pub mod Directives
pub mod LocationLines
pub mod ServerLines
pub mod Blocks
pub mod Http
pub mod Safe
pub mod Tests
