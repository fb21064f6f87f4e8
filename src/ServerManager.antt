-- ===== src/ServerManager.antt =====
-- include/ServerManager.hpp and src/ServerManager.cpp: the tables by descriptor (State, Tables), the start
-- (Start), the switches of the terminal (Terminal), and what is sent to a client (Sending).
pub mod State
pub mod Tables
pub mod Terminal
pub mod Start
pub mod Sending
pub mod Tests
