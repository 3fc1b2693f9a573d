-- ===== src/Ui/Controller.antt =====
-- The parts of crates/app-ui/src/controller.rs that do not draw.
pub mod Operation
pub mod Launch
