-- ===== src/Chores.antt =====
-- The chore list of chapter12: the command line of homework.go with its data file, the gRPC service of
-- server/robot.go and its client of client/client.go.
pub mod Chore
pub mod Store
pub mod Robot
pub mod Client
pub mod Network
