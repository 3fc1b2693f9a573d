-- ===== src/Audit/Event.antt =====
-- The events of crates/audit-journal/src/journal.rs.
use win_profile.Base.{ℕ, Text}

pub data AuditStatus : Type 0 where
  success warning failed rolled_back : AuditStatus

-- The arguments of `AuditLogger::log`.
pub record Event : Type 0 where
  pub operation : Text
  pub actor : Text
  pub target : Text
  pub status : AuditStatus
  pub details : Text

-- An event with the instant at which it was logged.
pub record AuditEntry : Type 0 where
  pub timestamp : ℕ
  pub operation : Text
  pub actor : Text
  pub target : Text
  pub status : AuditStatus
  pub details : Text
