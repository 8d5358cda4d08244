-- ===== src/Session/Report.antt =====
-- session/report.py: the verdict of a session's report.
use serial_testkit.Prelude.{Bool, ◌&&◌}
use serial_testkit.Session.Outcome.{SessionResult, crc_pass_rate, is_hundred}

-- `SessionReport.success`
unfoldable pub report_success : SessionResult → Bool
report_success r = r.success && is_hundred (crc_pass_rate r)
