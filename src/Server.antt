-- ===== src/Server.antt =====
-- The benchmark server: src/server.cpp. Its parts are the limit on running operations, the division
-- of the commands among threads, the placement of shards on replicas, the addresses of servers, the main
-- loop, and the commands that end a run.
pub mod RateLimit
pub mod Slices
pub mod Placement
pub mod Commands
pub mod Address
pub mod Run
mod Tests
mod RunTests
