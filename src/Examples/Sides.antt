-- ===== src/Examples/Sides.antt =====
-- The two sides of a session, each on its port.
use serial_testkit.Prelude.{◌-◌, ◌≡◌, refl, false, some, [], ◌∷◌, ◌++◌, arith}
use serial_testkit.Prelude.Bytes.{Bytes, to_bytes, from_bytes, bytes_eq}
use serial_testkit.Exec.{ok}
use serial_testkit.Exec.Outcome.{Comes}
use serial_testkit.Message.{encode, decode, resync, read_frame, uint32_to_bytes}
use serial_testkit.Message.Frames.{frame}
use serial_testkit.Protocol.{
  data_msg, msg_type_of, default_ack_timeout, default_syn_interval, seconds,
}
use serial_testkit.Encoding.{
  Decoded, generate_connection_id, encode_control, encode_ack_with_params, decode_message,
  parse_message,
}
use serial_testkit.Encoding.RoundTrip.{message}
use serial_testkit.Encoding.Soundness.{payload_of}
use serial_testkit.SerialIo.{drain_input}
use serial_testkit.Timed.{again, within, poll, retransmit}
use serial_testkit.Client.Handshake.{
  on_syn_reply, syn_round, client_send_syn_wait_syn_ack, client_send_ack_with_params,
  client_handshake,
}
use serial_testkit.Client.Runner.{run_peered}
use serial_testkit.Client.Greets.{client_connection}
use serial_testkit.Client.Sessions.{EndsWell}
use serial_testkit.Server.Handshake.{server_handshake}
use serial_testkit.Server.Greets.{OneTimeIsOver, server_connection}
use serial_testkit.Session.Outcome.{SessionStats, no_stats}
use serial_testkit.Session.ServerExchange.{server_rounds}
use serial_testkit.Session.Refines.Reports.{good_count}
use serial_testkit.Composed.Handshakes.{SameSession, handshakes-agree}
use serial_testkit.Composed.Sessions.{run_peered-server_rounds}
use serial_testkit.Channel.{Carries, frames}
use serial_testkit.Channel.Hears.{frame-Stands}
use serial_testkit.Examples.Line.{checksum}
use serial_testkit.Examples.Port.{
  Port, port_host, port-IsCalm, port-IsCrc32, port-IsLine, port-HasClock, port_arrivals,
}
use serial_testkit.Examples.Handshakes.{
  drawn, two, foreign, answer, client_port, echo_bytes, stand_there, foreign_strays, answer_answers,
  answer_carried,
}

abbrev greeted_port : Port
greeted_port =
    (client_handshake port_host (seconds 30) default_syn_interval (some two) client_port).1

-- The line of the server: what the client has written, and nothing of an earlier run.
abbrev called_port : Port
called_port = record { rx = greeted_port.tx ++ []; tx = []; clock = seconds 5; stale = 0 }

client_returns :
    client_handshake port_host (seconds 30) default_syn_interval (some two) client_port
    ≡ (ok (client_connection drawn two), greeted_port)
unfolding client_handshake client_send_syn_wait_syn_ack client_send_ack_with_params syn_round
    on_syn_reply generate_connection_id within poll retransmit drain_input encode_control
    encode_ack_with_params decode_message parse_message msg_type_of encode decode resync read_frame
    uint32_to_bytes to_bytes from_bytes bytes_eq checksum
client_returns = refl

handshakes-agree_example :
    Comes
      (server_handshake port_host (seconds 1) default_ack_timeout)
      called_port
      (λ conn w. SameSession (client_connection drawn two) conn × (w.rx ≡ []))
      (OneTimeIsOver (λ w. w.clock) (seconds 5) (seconds 1) default_ack_timeout)
handshakes-agree_example =
    handshakes-agree port_host port_host (port-IsCrc32, port-IsCrc32) (λ bs. refl) port-IsLine
      port_arrivals port-HasClock port-IsLine port_arrivals port-HasClock port-IsCalm (seconds 30)
      default_syn_interval two (foreign ∷ []) answer echo_bytes client_port greeted_port
      (client_connection drawn two) (seconds 1) default_ack_timeout [] called_port (omega arith)
      (omega arith) (foreign_strays, tt) answer_answers answer_carried client_returns (omega arith)
      refl

-- A good message and a damaged one.
abbrev good_data : Decoded
good_data = message data_msg drawn (65 ∷ [])

abbrev bad_data : Decoded
bad_data = record { msg_type = data_msg; conn_id = drawn; content = 65 ∷ []; crc_ok = false }

abbrev damaged : Bytes
damaged = 0x00 ∷ 0x10 ∷ 0x5A ∷ 0x5E ∷ 6 ∷ 0 ∷ 0 ∷ 0 ∷ 0x10 ∷ 1 ∷ 1 ∷ 1 ∷ 1 ∷ 65 ∷ 0 ∷ 0 ∷ 0 ∷ 0 ∷ []

abbrev data_port : Port
data_port = record {
  rx = frame port_host (payload_of good_data) ++ damaged;
  tx = [];
  clock = seconds 5;
  stale = 0;
}

data_carried : Carries port_host (good_data ∷ bad_data ∷ []) data_port.rx []
unfolding checksum to_bytes from_bytes
data_carried = (
  damaged,
  frame-Stands port_host port_host port-IsCrc32 (λ bs. refl) good_data damaged
      (refl, (refl, omega arith)),
  ([], (0, 0 ∷ 0 ∷ 0 ∷ 0 ∷ [], omega arith, refl, refl, (refl, omega arith), refl), refl),
)

abbrev answers : Bytes
answers = (server_rounds port_host (server_connection drawn two) 0 2 0 no_stats data_port).1.tx

-- The line of the client: a byte of an earlier run, two SYN_ACKs, and the server's answers.
abbrev answered_port : Port
answered_port = record {
  rx =
      9
      ∷ (frames port_host (foreign ∷ [])
          ++ (frame port_host (payload_of answer) ++ (answers ++ [])));
  tx = [];
  clock = seconds 3;
  stale = 1;
}

run_peered-server_rounds_example :
    (s : SessionStats) × ((server_rounds port_host
        (server_connection drawn two)
        0
        2
        0
        no_stats
        data_port).0
      ≡ ok (again s))
    × (s.crc_errors ≡ 2 - good_count (good_data ∷ bad_data ∷ []))
    × EndsWell
        (λ w. w.clock)
        (seconds 3)
        (seconds 30)
        (run_peered port_host (seconds 30) 2 answered_port)
run_peered-server_rounds_example =
    run_peered-server_rounds port_host port_host (port-IsLine, port-IsLine)
      (port-IsCalm, port-IsCalm) (port-IsCrc32, port-IsCrc32, λ bs. refl)
      (port-HasClock, port-HasClock) port_arrivals (server_connection drawn two) (seconds 30) 0
      (foreign ∷ []) (good_data ∷ bad_data ∷ []) answer [] answers [] data_port answered_port refl
      (omega arith) (omega arith) (omega arith) ((refl, refl), ((refl, refl), tt)) data_carried refl
      (foreign_strays, tt) answer_answers
      (stand_there (foreign ∷ []) answer (answers ++ []) ((refl, (refl, omega arith)), tt)
        (refl, (refl, omega arith)))
