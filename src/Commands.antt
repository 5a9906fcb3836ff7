-- ===== src/Commands.antt =====
-- vault/internal/commands: the command line's commands that talk to the daemon.
pub mod Client
pub mod Token
pub mod Role
pub mod Daemon
pub mod Start
pub mod Status
