-- ===== src/Client.antt =====
-- p9/client.go and p9/client_file.go: what the client does around the messages.
pub mod Chunk
pub mod Handshake
pub mod Sizes
