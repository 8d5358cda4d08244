-- ===== src/Examples/Channels.antt =====
-- Sessions on a line of messages, and what the programs raise there.
use serial_testkit.Prelude.{
  ◌-◌, ◌≡◌, refl, inr, inl, true, false, none, [], List, ◌∷◌, ◌++◌, All, arith,
}
use serial_testkit.Prelude.Bytes.{Bytes, to_bytes, from_bytes, bytes_eq}
use serial_testkit.Exec.{ok}
use serial_testkit.Message.{encode, decode, resync, read_frame, uint32_to_bytes}
use serial_testkit.Protocol.{client, data_msg, msg_type_of, Connection, seconds}
use serial_testkit.Encoding.{Decoded, encode_data, decode_message, parse_message}
use serial_testkit.SerialIo.{check_reply, recv_data, send_data}
use serial_testkit.Timed.{again}
use serial_testkit.Client.Runner.{run_peered}
use serial_testkit.Server.Runner.{server_turn}
use serial_testkit.Session.Outcome.{SessionStats, SessionResult, no_stats}
use serial_testkit.Session.Stats.{count_sent, count_received, log_progress}
use serial_testkit.Session.Rules.{nothing_yet, rounds}
use serial_testkit.Session.ClientExchange.{client_exchange}
use serial_testkit.Session.ServerExchange.{
  judge, echo, handle_server_data, on_server_reply, server_round, server_rounds, server_exchange,
}
use serial_testkit.Session.Refines.Reports.{IsDataOn, good_count}
use serial_testkit.Session.Refines.Server.{ServerMeets}
use serial_testkit.Session.Refines.ServerRounds.{server_rounds-Meets}
use serial_testkit.Session.Refines.Exchange.{ClientReports, client_exchange-Reports}
use serial_testkit.Session.Refines.ServerExchange.{ServerReports, server_exchange-Reports}
use serial_testkit.Session.Refines.Echoed.{client_exchange-server_rounds}
use serial_testkit.Channel.{Carries}
use serial_testkit.Errors.Programs.{ComesOut, run_peered-ComesOut, server_turn-ComesOut}
use serial_testkit.Examples.Line.{checksum, conn_id, frame_data}
use serial_testkit.Examples.Port.{
  Port, port_of, port_host, port-IsCalm, port-IsCrc32, port-IsLine, port-HasClock,
}

abbrev conn : Connection
conn = record { connection_id = conn_id; role = client; session_params = none }

abbrev good_data : Decoded
good_data = record { msg_type = data_msg; conn_id = conn_id; content = 65 ∷ []; crc_ok = true }

abbrev bad_data : Decoded
bad_data = record { msg_type = data_msg; conn_id = conn_id; content = 65 ∷ []; crc_ok = false }

abbrev frame_damaged : Bytes
frame_damaged =
    0x00 ∷ 0x10 ∷ 0x5A ∷ 0x5E ∷ 6 ∷ 0 ∷ 0 ∷ 0 ∷ 0x10 ∷ 1 ∷ 2 ∷ 3 ∷ 4 ∷ 65 ∷ 90 ∷ 0 ∷ 0 ∷ 0 ∷ []

abbrev messages : List Decoded
messages = good_data ∷ bad_data ∷ []

-- A good message and a damaged one.
abbrev messages_port : Port
messages_port = port_of (frame_data ++ frame_damaged)

messages_carried : Carries port_host messages messages_port.rx []
unfolding checksum to_bytes from_bytes
messages_carried = (
  frame_damaged,
  (0, 91 ∷ 0 ∷ 0 ∷ 0 ∷ [], omega arith, refl, refl, (refl, omega arith), refl),
  ([], (0, 90 ∷ 0 ∷ 0 ∷ 0 ∷ [], omega arith, refl, refl, (refl, omega arith), refl), refl),
)

messages_data : All (IsDataOn conn_id) messages
messages_data = ((refl, refl), ((refl, refl), tt))

-- What the server answers: the data with a good CRC, twice.
abbrev answers_port : Port
answers_port = port_of (frame_data ++ frame_data)

answered :
    (server_rounds port_host conn 0 2 0 no_stats messages_port).1.tx ≡ frame_data ++ frame_data
unfolding server_rounds server_round on_server_reply handle_server_data judge echo count_sent
    count_received log_progress recv_data send_data check_reply encode_data decode_message
    parse_message msg_type_of encode decode resync read_frame uint32_to_bytes to_bytes from_bytes
    bytes_eq checksum
answered = refl

run_peered-ComesOut_example : ComesOut (run_peered port_host (seconds 60) 100 messages_port).0
run_peered-ComesOut_example =
    run_peered-ComesOut port_host port-HasClock port-IsCalm port-IsCrc32 (seconds 60) 100
      messages_port (omega arith)

server_turn-ComesOut_example : ComesOut (server_turn port_host (λ w. (false, w)) messages_port).0
server_turn-ComesOut_example =
    server_turn-ComesOut port_host port-HasClock port-IsCalm port-IsCrc32 (λ w. (false, w))
      (λ w. omega arith) messages_port

client_exchange-Reports_example :
    ClientReports
      (rounds conn_id 3 0 nothing_yet messages)
      (client_exchange port_host conn 3 messages_port).0
client_exchange-Reports_example =
    client_exchange-Reports port_host port-IsLine port-IsCalm port-IsCrc32 port-HasClock conn refl
      messages 3 [] messages_port messages_carried (inl refl)

server_exchange-Reports_example :
    ServerReports
      (rounds conn_id 3 0 nothing_yet messages)
      (server_exchange port_host conn 3 messages_port).0
server_exchange-Reports_example =
    server_exchange-Reports port_host port-IsLine port-IsCalm port-IsCrc32 port-HasClock conn refl
      messages 3 [] messages_port messages_carried (inl refl)

server_rounds-Meets_example :
    ServerMeets port_host
      (λ w. w.rx)
      (λ w. w.tx)
      conn_id
      []
      messages
      0
      messages_port
      (rounds conn_id 2 0 nothing_yet messages)
      (server_rounds port_host conn 0 2 0 no_stats messages_port)
server_rounds-Meets_example =
    server_rounds-Meets port_host port-IsLine port-IsCalm port-IsCrc32 port-HasClock conn refl
      messages 2 0 0 no_stats [] messages_port messages_carried (inr (omega arith))

client_exchange-server_rounds_example :
    (s : SessionStats) × (x : SessionResult) × ((server_rounds port_host conn 0 2 0 no_stats
        messages_port).0
      ≡ ok (again s))
    × (s.crc_ok ≡ good_count messages)
    × (s.crc_errors ≡ 2 - good_count messages)
    × ((client_exchange port_host conn 2 answers_port).0 ≡ ok x)
    × (x.success ≡ true)
    × (x.received ≡ 2)
    × (x.crc_ok ≡ 2)
    × (x.crc_errors ≡ 0)
client_exchange-server_rounds_example =
    client_exchange-server_rounds port_host port_host (port-IsLine, port-IsLine)
      (port-IsCalm, port-IsCalm) (port-IsCrc32, port-IsCrc32, λ bs. refl)
      (port-HasClock, port-HasClock) conn refl messages 0 [] (frame_data ++ frame_data) []
      messages_port answers_port messages_data messages_carried answered refl
