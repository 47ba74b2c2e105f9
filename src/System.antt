-- ===== src/System.antt =====
-- A client and a server together: transport/tcp/client.go with transport/tcp/server.go.
pub mod RemotePublish
