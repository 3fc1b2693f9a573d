-- ===== src/Ui.antt =====
-- The crate `app-ui`: how profiles and audit entries are shown, and what the window's controller
-- decides.
pub mod State
pub mod Controller
