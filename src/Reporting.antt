-- ===== src/Reporting.antt =====
-- common/report.py and session/report.py: the reports, as the lines that they print.

use Prim.Native.String.{String, ◌++◌}
use serial_testkit.Prelude.{
  ℕ, ◌*◌, ◌≡◌, ◌⊎◌, inl, inr, refl, Bool, true, false, not, ◌&&◌, ◌||◌, Option, none, some, List,
  [], ◌∷◌, ◌++◌ as append, ltb, if◌then◌else◌,
}
use serial_testkit.Prelude.Bytes.{Bytes}
use serial_testkit.Exec.{Result, ok, err, value_error}
use serial_testkit.Exec.Fallible.{◌>>=◌}
use serial_testkit.Protocol.{Role, client, server}
use serial_testkit.Remote.Text.{decimal}
use serial_testkit.Session.Outcome.{
  SessionError, timeout_response, timeout_message, server_sent_fin, client_sent_fin, SessionResult,
  Ratio, throughput_baud, throughput_kbps,
}
use serial_testkit.Session.Latency.{LatencyStats, compute_latency_stats}
use serial_testkit.Session.Latency.Order.{compute_latency_stats-IsSummary}

-- How Python formats numbers: `{n:,.0f}`, `{n:.2f}` and `{n:.1f}` on fractions, and `bytes.hex()`.
pub record Formats : Type 0 where
  pub grouped : Ratio → String
  pub two_places : Ratio → String
  pub one_place : Ratio → String
  pub hex : Bytes → String

-- `PeeringReport`; an error stands for its text.
pub record PeeringReport : Type 0 where
  pub connected : Bool
  pub connection_id : Option Bytes
  pub role : Option Role
  pub error : Option String
  pub msg_count : Option ℕ

-- `__post_init__`, behind the fields of the dataclass.
unfoldable pub make_peering_report : PeeringReport → Result PeeringReport
make_peering_report r = if not r.connected then ok r else elim r.connection_id [
  | none ↦ err value_error
  | some conn_id ↦ elim r.role [ none ↦ err value_error | some role ↦ ok r ]
]

abbrev role_value : Role → String
role_value client = "client"
role_value server = "server"

abbrev error_text : Option String → String
error_text none = "None"
error_text (some e) = e

abbrev params_lines : Option ℕ → List String
params_lines none = []
params_lines (some n) = ("Session params: msg_count=" ++ decimal n) ∷ []

-- `print`: `none` where an assertion fails.
unfoldable pub peering_lines : Formats → PeeringReport → Option (List String)
peering_lines F r =
    if r.connected
    then elim r.connection_id [
      | none ↦ none
      | some conn_id ↦ elim r.role [
        | none ↦ none
        | some role ↦ some (
            ("Peering: SUCCESS (id=" ++ F.hex conn_id ++ ", role=" ++ role_value role ++ ")")
            ∷ params_lines r.msg_count)
      ]
    ]
    else some (("Peering: FAILED (" ++ error_text r.error ++ ")") ∷ [])

unfoldable pub peering_success : PeeringReport → Bool
peering_success r = r.connected

-- The text of a session's error.
unfoldable pub session_error_text : SessionError → String
session_error_text (timeout_response i) = "Timeout waiting for response to message " ++ decimal i
session_error_text (timeout_message i) = "Timeout waiting for message " ++ decimal i
session_error_text server_sent_fin = "Server sent FIN during exchange"
session_error_text (client_sent_fin n) = "Client sent FIN after " ++ decimal n ++ " messages"

abbrev session_error : Option SessionError → String
session_error none = "None"
session_error (some e) = session_error_text e

-- `… sent, … received, … ok, … errors`
unfoldable pub counts : SessionResult → String
counts r =
    decimal r.sent
    ++ " sent, "
    ++ decimal r.received
    ++ " received, "
    ++ decimal r.crc_ok
    ++ " ok, "
    ++ decimal r.crc_errors
    ++ " errors"

-- THROUGHPUT_MIN_DURATION_S, in nanoseconds
abbrev pub throughput_min_duration : ℕ
throughput_min_duration = 30_000_000_000

abbrev in_units : ℕ → ℕ → Ratio
in_units unit n = record { num = n; den = unit }

unfoldable pub throughput_lines : Formats → SessionResult → List String
throughput_lines F r =
    if ltb 0 r.elapsed && (ltb 0 r.bytes_sent || ltb 0 r.bytes_received)
    then ("Throughput: "
        ++ F.grouped (throughput_baud r 10)
        ++ " baud ("
        ++ F.two_places (throughput_kbps r)
        ++ " Kbps) over "
        ++ F.one_place (in_units 1_000_000_000 r.elapsed)
        ++ "s")
      ∷ (if ltb r.elapsed throughput_min_duration
          then "(Note: throughput from short test may not reflect sustained performance)" ∷ []
          else [])
    else []

-- `{…:.2f}ms` of a time in nanoseconds
abbrev ms : Formats → ℕ → String
ms F n = F.two_places (in_units 1_000_000 n) ++ "ms"

unfoldable pub latency_lines : Formats → Option LatencyStats → List String
latency_lines F none = []
latency_lines F (some s) =
    ("Latency: avg="
      ++ F.two_places (record { num = s.avg_ns.num; den = s.avg_ns.den * 1_000_000 })
      ++ "ms min="
      ++ ms F s.min_ns
      ++ " max="
      ++ ms F s.max_ns)
    ∷ ("         p50="
        ++ ms F s.p50_ns
        ++ " p95="
        ++ ms F s.p95_ns
        ++ " p99="
        ++ ms F s.p99_ns
        ++ " (n="
        ++ decimal s.count
        ++ ")")
    ∷ []

abbrev failed_counts : SessionResult → List String
failed_counts r =
    if ltb 0 r.sent || ltb 0 r.received then ("         (" ++ counts r ++ ")") ∷ [] else []

-- `SessionReport.print`
unfoldable pub session_lines : Formats → SessionResult → Result (List String)
session_lines F r =
    if r.success
    then (do
      latency ← compute_latency_stats r.rtt_samples
      ok (
          ("Session: SUCCESS (" ++ counts r ++ ")")
          ∷ append (throughput_lines F r) (latency_lines F latency)))
    else ok (("Session: FAILED (" ++ session_error r.error ++ ")") ∷ failed_counts r)

-- The constructor's check is what printing needs: a peering report is made and printed without a
-- failing assertion, or it is refused with ValueError and could not be printed.
pub make_peering_report-prints :
    (F : Formats) (r : PeeringReport)
    → ((lines : List String) × (make_peering_report r ≡ ok r) × (peering_lines F r ≡ some lines))
      ⊎ (make_peering_report r ≡ err value_error) × (peering_lines F r ≡ none)
unfolding make_peering_report peering_lines
make_peering_report-prints F r = go r.connected r.connection_id r.role r.error r.msg_count
  where
    go :
        (b : Bool) (conn_id : Option Bytes) (role : Option Role) (error : Option String)
        (n : Option ℕ)
        → (let q : PeeringReport = record {
          connected = b;
          connection_id = conn_id;
          role = role;
          error = error;
          msg_count = n;
        } in
            ((lines : List String) × (make_peering_report q ≡ ok q)
              × (peering_lines F q ≡ some lines))
            ⊎ (make_peering_report q ≡ err value_error) × (peering_lines F q ≡ none))
    go false conn_id role error n = inl (_, refl, refl)
    go true none role error n = inr (refl, refl)
    go true (some conn_id) none error n = inr (refl, refl)
    go true (some conn_id) (some role) error n = inl (_, refl, refl)

latency_stats-ok :
    (samples : List ℕ) → (o : Option LatencyStats) × (compute_latency_stats samples ≡ ok o)
unfolding compute_latency_stats
latency_stats-ok [] = (none, refl)
latency_stats-ok (x ∷ xs) = let (st, e, _) = compute_latency_stats-IsSummary x xs in (some st, e)

printed :
    (F : Formats) (r : SessionResult) (b : Bool)
    → r.success ≡ b
    → (lines : List String) × (session_lines F r ≡ ok lines)
unfolding session_lines
printed F r true h =
    let (o, e) = latency_stats-ok r.rtt_samples in
    (
      ("Session: SUCCESS (" ++ counts r ++ ")") ∷ append (throughput_lines F r) (latency_lines F o),
      rw (h, e) refl,
    )
printed F r false h =
    (("Session: FAILED (" ++ session_error r.error ++ ")") ∷ failed_counts r, rw h refl)

-- The report of a session is printed for every result: the latency statistics raise no IndexError,
-- whatever the samples are.
pub session_lines-ok :
    (F : Formats) (r : SessionResult) → (lines : List String) × (session_lines F r ≡ ok lines)
session_lines-ok F r = printed F r r.success refl
