-- ===== src/FileHashing.antt =====
-- backend/app/utils/hashing.py: a file or a stream is hashed chunk by chunk.
pub mod Chunks
pub mod Digest
mod Tests
