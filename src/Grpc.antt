-- ===== src/Grpc.antt =====
-- components/grpc: the streams of the server, the server, the client, and the interceptors.
pub mod Client
pub mod Interceptors
pub mod Server
pub mod Streams
