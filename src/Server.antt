-- ===== src/Server.antt =====
-- vault/internal/server: the gRPC handlers, the request checks, the audit log and the configuration.
pub mod TopK
pub mod Grpc
pub mod Interceptor
pub mod Config
pub mod Admin
pub mod Audit
pub mod Serve
pub mod Run
