-- ===== src/Threshprf.antt =====
-- threshprf/: a pseudo-random function of which each party computes a share. The curve and SHA-256 are
-- parameters.
pub mod Words
pub mod Curve
pub mod Share
pub mod Keys
pub mod Prf
pub mod Node
