-- ===== src/Chief/Metrics.antt =====
-- The counts of chief/chief_metrics/chief_metrics.go that the chief reports.
use fmtp.Prelude.{ℕ, String, Bytes, ℤ}

pub record ChanMetrics : Type 0 where
  pub tp : String
  pub loc_atc : Bytes
  pub rem_atc : Bytes
  pub count : ℕ

pub record ProvMetrics : Type 0 where
  pub send_count : ℕ
  pub recv_count : ℕ
  pub missed_count : ℕ
  pub timeout_count : ℤ
