-- ===== src/Examples/Runs.antt =====
-- Sessions on a concrete line.
use serial_testkit.Prelude.{◌≡◌, ◌↔◌, refl, true, false, none, some, [], ◌∷◌, ◌++◌, arith}
use serial_testkit.Prelude.Bytes.{Bytes, to_bytes, from_bytes, bytes_eq}
use serial_testkit.Exec.{ok}
use serial_testkit.Exec.Ends.{Ends}
use serial_testkit.Message.{
  encode, decode, resync, read_frame, uint32_to_bytes, random_bytes, random_payload,
}
use serial_testkit.Protocol.{msg_type_of, client, Connection, seconds}
use serial_testkit.Encoding.{encode_control, encode_data, decode_message, parse_message}
use serial_testkit.SerialIo.{check_reply, recv_data, send_data}
use serial_testkit.Timed.{poll, within, retransmit}
use serial_testkit.Client.Shutdown.{on_fin_reply, fin_round, client_shutdown}
use serial_testkit.Client.Runner.{success, exit_code, run_peered}
use serial_testkit.Client.ExitCodes.{SaysItAll, exit_code-client_exchange, report_success-exit_code}
use serial_testkit.Session.Report.{report_success}
use serial_testkit.Server.Runner.{server_turn}
use serial_testkit.Session.Outcome.{SessionResult, timeout_message}
use serial_testkit.Session.Stats.{count_sent, count_received, stop_clock, log_progress}
use serial_testkit.Session.ClientExchange.{
  handle_client_data_response, on_client_reply, client_round, client_rounds, client_finish,
  client_exchange,
}
use serial_testkit.Session.ServerExchange.{
  judge, echo, handle_server_data, on_server_reply, server_round, server_rounds, server_finish,
  server_exchange,
}
use serial_testkit.Session.ClientCounts.{IsClientResult, client_exchange-IsClientResult}
use serial_testkit.Session.ServerCounts.{IsServerResult, server_exchange-IsServerResult}
use serial_testkit.Termination.Programs.{run_peered-Ends, server_turn-Ends}
use serial_testkit.Examples.Line.{
  Wire, wire_of, host, host-HasClock, checksum, conn_id, frame_data, frame_fin_ack,
}

abbrev conn : Connection
conn = record { connection_id = conn_id; role = client; session_params = none }

-- A DATA message whose CRC is wrong.
abbrev frame_damaged : Bytes
frame_damaged =
    0x00 ∷ 0x10 ∷ 0x5A ∷ 0x5E ∷ 6 ∷ 0 ∷ 0 ∷ 0 ∷ 0x10 ∷ 1 ∷ 2 ∷ 3 ∷ 4 ∷ 65 ∷ 90 ∷ 0 ∷ 0 ∷ 0 ∷ []

-- One good answer, one damaged, then FIN_ACK.
abbrev answers : Wire
answers = wire_of (frame_data ++ (frame_damaged ++ frame_fin_ack))

abbrev answers_read : Wire
answers_read = record { rx = []; clock = 12 }

abbrev client_result : SessionResult
client_result = record {
  success = true;
  stats = record {
    sent = 2;
    received = 2;
    crc_ok = 1;
    crc_errors = 1;
    bytes_sent = 66;
    bytes_received = 2;
    rtt_samples = 4 ∷ [];
    elapsed = 8;
  };
  error = none;
  fin_ack_received = true;
  fin_received = false;
}

client_ran : client_exchange host conn 2 answers ≡ (ok client_result, answers_read)
unfolding client_exchange client_rounds client_round client_finish on_client_reply
    handle_client_data_response count_sent count_received stop_clock log_progress client_shutdown
    fin_round on_fin_reply poll within retransmit recv_data send_data check_reply encode_control
    encode_data decode_message parse_message msg_type_of encode decode resync read_frame
    uint32_to_bytes random_bytes random_payload to_bytes from_bytes bytes_eq checksum
client_ran = refl

client_exchange-IsClientResult_example : IsClientResult 2 client_result
client_exchange-IsClientResult_example =
    client_exchange-IsClientResult host conn 2 answers answers_read client_result client_ran

exit_code-client_exchange_example : SaysItAll 2 client_result
exit_code-client_exchange_example =
    exit_code-client_exchange host conn 2 answers answers_read client_result client_ran

report_success-exit_code_example :
    (report_success client_result ≡ true) ↔ (exit_code client_result ≡ success)
report_success-exit_code_example =
    report_success-exit_code host conn 2 answers answers_read client_result client_ran

-- One message, then silence.
abbrev messages : Wire
messages = wire_of frame_data

abbrev messages_read : Wire
messages_read = record { rx = []; clock = 5 }

abbrev server_result : SessionResult
server_result = record {
  success = false;
  stats = record {
    sent = 1;
    received = 1;
    crc_ok = 1;
    crc_errors = 0;
    bytes_sent = 18;
    bytes_received = 1;
    rtt_samples = [];
    elapsed = 5;
  };
  error = some (timeout_message 2);
  fin_ack_received = false;
  fin_received = false;
}

server_ran : server_exchange host conn 3 messages ≡ (ok server_result, messages_read)
unfolding server_exchange server_rounds server_round server_finish on_server_reply
    handle_server_data judge echo count_sent count_received stop_clock log_progress recv_data
    send_data check_reply encode_data decode_message parse_message msg_type_of encode decode resync
    read_frame uint32_to_bytes to_bytes from_bytes bytes_eq checksum
server_ran = refl

server_exchange-IsServerResult_example : IsServerResult 3 server_result
server_exchange-IsServerResult_example =
    server_exchange-IsServerResult host conn 3 messages messages_read server_result server_ran

run_peered-Ends_example : Ends (λ w. w.clock) (run_peered host (seconds 60) 100)
run_peered-Ends_example = run_peered-Ends host host-HasClock (seconds 60) 100

server_turn-Ends_example : Ends (λ w. w.clock) (server_turn host (λ w. (false, w)))
server_turn-Ends_example = server_turn-Ends host host-HasClock (λ w. (false, w)) (λ w. omega arith)
