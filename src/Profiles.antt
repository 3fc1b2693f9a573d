-- ===== src/Profiles.antt =====
-- The crate `core-profiles`: profiles and their anomalies, the scanner and its report.
pub mod Models
pub mod Report
pub mod DirectorySize
pub mod Scanner
