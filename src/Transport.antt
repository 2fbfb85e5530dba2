-- ===== src/Transport.antt =====
-- internal/transport: the HTTP interface of the service.
pub mod Http
