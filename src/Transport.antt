-- ===== src/Transport.antt =====
-- internal/transport: the HTTP API and the command line over the two services.
pub mod Http
pub mod Cli
pub mod Answers
pub mod Agreement
pub mod Routes
pub mod Commands
pub mod Operations
