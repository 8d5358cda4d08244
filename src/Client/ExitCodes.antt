-- ===== src/Client/ExitCodes.antt =====
-- client/runner.py: the exit code of a session, and session/report.py: its verdict.
use serial_testkit.Prelude.{ℕ, ◌<◌, ◌≡◌, ◌↔◌, true, false, arith}
use serial_testkit.Exec.{ok}
use serial_testkit.Host.{Host}
use serial_testkit.Protocol.{Connection}
use serial_testkit.Session.Outcome.{SessionResult, crc_pass_rate, below_hundred, is_hundred}
use serial_testkit.Session.Report.{report_success}
use serial_testkit.Session.ClientExchange.{client_exchange}
use serial_testkit.Session.ClientCounts.{IsClientResult, client_exchange-IsClientResult}
use serial_testkit.Client.Runner.{success, peering_failed, no_data, crc_errors, exit_code}

-- Each code says one thing of the result of a session of `n` messages, and nothing else says it.
abbrev pub SaysItAll : ℕ → SessionResult → Type 0
SaysItAll n r =
    ((exit_code r ≡ success) ↔ ((r.success ≡ true) × (0 < n) × (r.crc_ok ≡ n)))
    × ((exit_code r ≡ peering_failed) ↔ (r.success ≡ false))
    × ((exit_code r ≡ no_data) ↔ ((r.success ≡ true) × (n ≡ 0)))
    × ((exit_code r ≡ crc_errors) ↔ ((r.success ≡ true) × (r.crc_ok < n)))

exit_code-SaysItAll : (n : ℕ) (r : SessionResult) → IsClientResult n r → SaysItAll n r
unfolding exit_code crc_pass_rate below_hundred
exit_code-SaysItAll n r h = (
  (λ e. ground (arith, h.ending, h.judged), λ e. ground (arith, h.ending, h.judged)),
  (λ e. ground arith, λ e. ground arith),
  (λ e. ground (arith, h.ending), λ e. ground (arith, h.ending)),
  (λ e. ground (arith, h.ending, h.judged), λ e. ground (arith, h.ending, h.judged)),
)

-- The exit code of a session of `msg_count` messages, on every result that the exchange returns:
-- SUCCESS exactly if the session succeeded, `msg_count` is not 0 and `msg_count` answers had a good
-- CRC; PEERING_FAILED exactly if it failed; NO_DATA exactly if it succeeded and `msg_count` is 0;
-- CRC_ERRORS exactly if it succeeded and fewer than `msg_count` answers had a good CRC.
pub exit_code-client_exchange :
    {W : Type 0} (H : Host W) (conn : Connection) (msg_count : ℕ) (w w' : W) (r : SessionResult)
    → client_exchange H conn msg_count w ≡ (ok r, w')
    → SaysItAll msg_count r
exit_code-client_exchange H conn msg_count w w' r e =
    exit_code-SaysItAll msg_count r (client_exchange-IsClientResult H conn msg_count w w' r e)

report_success-exit_code_lem :
    (n : ℕ) (r : SessionResult)
    → IsClientResult n r
    → (report_success r ≡ true) ↔ (exit_code r ≡ success)
unfolding report_success exit_code crc_pass_rate below_hundred is_hundred
report_success-exit_code_lem n r h = (λ e. ground (arith, h.judged), λ e. ground (arith, h.judged))

-- On every result that the client's exchange returns, the report calls the session a success
-- exactly if the client's exit code is SUCCESS.
pub report_success-exit_code :
    {W : Type 0} (H : Host W) (conn : Connection) (msg_count : ℕ) (w w' : W) (r : SessionResult)
    → client_exchange H conn msg_count w ≡ (ok r, w')
    → (report_success r ≡ true) ↔ (exit_code r ≡ success)
report_success-exit_code H conn msg_count w w' r e =
    report_success-exit_code_lem msg_count r
      (client_exchange-IsClientResult H conn msg_count w w' r e)
