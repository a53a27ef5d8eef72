-- ===== src/Quorum.antt =====
-- quorum/: who has sent matching messages, with their signatures, and how many suffice.
pub mod Sizes
pub mod Buffer
pub mod IntBuffer
pub mod Intersection
pub mod Voters
pub mod Api
