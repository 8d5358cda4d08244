-- ===== src/Examples/Connections.antt =====
-- A handshake on a concrete line: two stale bytes, then SYN and ACK of one client.
use serial_testkit.Prelude.{◌≡◌, refl, some, [], ◌∷◌, ◌++◌, All, arith}
use serial_testkit.Prelude.Bytes.{Bytes, IsByte, to_bytes, from_bytes, bytes_eq}
use serial_testkit.Exec.{ok}
use serial_testkit.Message.{encode, decode, resync, read_frame, uint32_to_bytes}
use serial_testkit.Protocol.{server, msg_type_of, seconds, Connection}
use serial_testkit.Encoding.{encode_control, decode_ack_with_params, parse_message, decode_message}
use serial_testkit.SerialIo.{drain_input}
use serial_testkit.Timed.{poll, within, retransmit}
use serial_testkit.Server.Handshake.{
  on_syn, on_ack, wait_syn_round, server_wait_for_syn, wait_ack_round, server_send_syn_ack_wait_ack,
  server_handshake,
}
use serial_testkit.Server.Connections.{ComesFrom, server_handshake-ComesFrom}
use serial_testkit.Examples.Line.{checksum, conn_id, frame_ack}
use serial_testkit.Examples.Port.{Port, port_host, port-IsCrc32, port-IsLine, port_arrivals}

abbrev frame_syn : Bytes
frame_syn = 0x00 ∷ 0x10 ∷ 0x5A ∷ 0x5E ∷ 5 ∷ 0 ∷ 0 ∷ 0 ∷ 1 ∷ 1 ∷ 2 ∷ 3 ∷ 4 ∷ 11 ∷ 0 ∷ 0 ∷ 0 ∷ []

abbrev frame_syn_ack : Bytes
frame_syn_ack = 0x00 ∷ 0x10 ∷ 0x5A ∷ 0x5E ∷ 5 ∷ 0 ∷ 0 ∷ 0 ∷ 2 ∷ 1 ∷ 2 ∷ 3 ∷ 4 ∷ 12 ∷ 0 ∷ 0 ∷ 0 ∷ []

abbrev called : Port
called = record {
  rx = 9 ∷ 9 ∷ (frame_syn ++ (frame_ack ++ 7 ∷ []));
  tx = [];
  clock = seconds 3;
  stale = 2;
}

abbrev answered : Port
answered = record { rx = 7 ∷ []; tx = frame_syn_ack; clock = 3_000_000_009; stale = 0 }

abbrev connection : Connection
connection = record {
  connection_id = conn_id;
  role = server;
  session_params = some (record { msg_count = 300 });
}

connected : server_handshake port_host (seconds 1) (seconds 10) called ≡ (ok connection, answered)
unfolding server_handshake drain_input server_wait_for_syn wait_syn_round on_syn
    server_send_syn_ack_wait_ack wait_ack_round on_ack within poll retransmit encode_control encode
    uint32_to_bytes to_bytes decode_ack_with_params decode_message parse_message msg_type_of decode
    resync read_frame from_bytes bytes_eq checksum
connected = refl

called-IsByte : All IsByte called.rx
called-IsByte = ground arith

server_handshake-ComesFrom_example : ComesFrom port_host connection called.rx answered.rx
server_handshake-ComesFrom_example =
    server_handshake-ComesFrom port_host port-IsLine (seconds 1) (seconds 10) called answered
      connection port_arrivals port-IsCrc32 called-IsByte connected
