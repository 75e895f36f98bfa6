-- ===== src/Cli.antt =====
-- pkg/cli: the client of the job control API, for mittnitectl.
pub mod Text
pub mod Responses
pub mod Client
pub mod Streaming
pub mod Served
