-- ===== src/Server/Shutdown.antt =====
-- server/shutdown.py: one FIN_ACK in answer to a FIN.
use serial_testkit.Prelude.{ℕ, Option}
use serial_testkit.Exec.{Exec, ◌>>=◌}
use serial_testkit.Host.{Host}
use serial_testkit.Protocol.{fin_ack, Connection}
use serial_testkit.Encoding.{encode_control}

unfoldable pub server_shutdown : {W : Type 0} → Host W → Connection → Exec W (Option ℕ)
server_shutdown H conn = do
  fin_ack_msg ← encode_control H fin_ack conn.connection_id
  H.write fin_ack_msg
