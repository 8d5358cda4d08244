-- ===== src/Examples/Handshakes.antt =====
-- Handshakes and whole sessions on lines of messages.
use serial_testkit.Prelude.{◌≡◌, refl, true, some, List, [], ◌∷◌, ◌++◌, All, inl, arith}
use serial_testkit.Prelude.Bytes.{Bytes, bytes_eq, length-to_bytes}
use serial_testkit.Exec.{handshake_error}
use serial_testkit.Exec.Outcome.{Comes}
use serial_testkit.Message.Frames.{frame}
use serial_testkit.Protocol.{
  syn, syn_ack, fin, data_msg, SessionParams, default_ack_timeout, default_syn_interval, seconds,
}
use serial_testkit.Encoding.{Decoded}
use serial_testkit.Encoding.RoundTrip.{message, decode_ack-params}
use serial_testkit.Encoding.Soundness.{payload_of}
use serial_testkit.Session.Rules.{nothing_yet, rounds}
use serial_testkit.Session.Refines.Reports.{IsDataOn, good_count}
use serial_testkit.Server.Handshake.{server_handshake}
use serial_testkit.Server.Peers.{IsConsent}
use serial_testkit.Server.Greets.{Accepted, OneTimeIsOver, server_handshake-Accepted}
use serial_testkit.Client.Handshake.{client_handshake}
use serial_testkit.Client.Runner.{run_peered}
use serial_testkit.Client.Peers.{is_answer, IsStray, TimeIsOver}
use serial_testkit.Client.Greets.{Greeted, client_handshake-Greeted}
use serial_testkit.Client.Sessions.{EndsWell, RunsAs, run_peered-RunsAs, run_peered-succeeds}
use serial_testkit.Channel.{CarriesThen, Carries, frames}
use serial_testkit.Channel.Hears.{IsSound, ack_message, frame-Stands, sound-Carries}
use serial_testkit.Examples.Port.{
  Port, port_host, port-IsCalm, port-IsCrc32, port-IsLine, port-HasClock, port_arrivals,
}

-- The id that the port's `urandom` gives.
abbrev pub drawn : Bytes
drawn = 1 ∷ 1 ∷ 1 ∷ 1 ∷ []

abbrev pub two : SessionParams
two = record { msg_count = 2 }

-- A SYN_ACK of another connection, and the one that is waited for.
abbrev pub foreign : Decoded
foreign = message syn_ack (4 ∷ 3 ∷ 2 ∷ 1 ∷ []) []

abbrev pub answer : Decoded
answer = message syn_ack drawn []

abbrev echoes : List Decoded
echoes = message data_msg drawn (65 ∷ []) ∷ message data_msg drawn (66 ∷ 67 ∷ []) ∷ []

abbrev pub echo_bytes : Bytes
echo_bytes = frames port_host echoes ++ []

echoes-IsSound : All IsSound echoes
echoes-IsSound = ((refl, (refl, omega arith)), ((refl, (refl, omega arith)), tt))

echoes_carried : Carries port_host echoes echo_bytes []
echoes_carried =
    sound-Carries port_host port_host port-IsCrc32 (λ bs. refl) echoes [] echoes-IsSound

-- Two bytes of an earlier run, then the two SYN_ACKs, and then the messages of the session.
abbrev pub client_port : Port
client_port = record {
  rx =
      9
      ∷ 9
      ∷ (frames port_host (foreign ∷ []) ++ (frame port_host (payload_of answer) ++ echo_bytes));
  tx = [];
  clock = seconds 3;
  stale = 2;
}

-- What stands on a line for sound messages and then a last one.
pub stand_there :
    (ms : List Decoded) (m : Decoded) (rest : Bytes)
    → All IsSound ms
    → IsSound m
    → CarriesThen port_host ms m
        (frames port_host ms ++ (frame port_host (payload_of m) ++ rest))
        rest
stand_there ms m rest hs h = (
  frame port_host (payload_of m) ++ rest,
  sound-Carries port_host port_host port-IsCrc32 (λ bs. refl) ms _ hs,
  frame-Stands port_host port_host port-IsCrc32 (λ bs. refl) m rest h,
)

pub foreign_strays : IsStray drawn foreign
unfolding bytes_eq
foreign_strays = refl

pub answer_answers : is_answer drawn answer ≡ true
unfolding bytes_eq
answer_answers = refl

pub answer_carried :
    CarriesThen port_host
      (foreign ∷ [])
      answer
      (frames port_host (foreign ∷ []) ++ (frame port_host (payload_of answer) ++ echo_bytes))
      echo_bytes
answer_carried =
    stand_there (foreign ∷ []) answer echo_bytes ((refl, (refl, omega arith)), tt)
      (refl, (refl, omega arith))

client_handshake-Greeted_example :
    Comes
      (client_handshake port_host (seconds 30) default_syn_interval (some two))
      client_port
      (Greeted port_host (λ w. w.rx) (λ w. w.tx) drawn two [] echo_bytes)
      (TimeIsOver (λ w. w.clock) (seconds 3) (seconds 30) handshake_error)
client_handshake-Greeted_example =
    client_handshake-Greeted port_host port-IsLine port-IsCalm port-IsCrc32 port-HasClock
      port_arrivals (seconds 30) default_syn_interval two (foreign ∷ []) answer echo_bytes
      client_port (omega arith) (omega arith) (foreign_strays, tt) answer_answers answer_carried

run_peered-RunsAs_example :
    RunsAs
      (λ w. w.clock)
      (seconds 3)
      (seconds 30)
      (rounds drawn 2 0 nothing_yet echoes)
      (run_peered port_host (seconds 30) 2 client_port)
run_peered-RunsAs_example =
    run_peered-RunsAs port_host port-IsLine port-IsCalm port-IsCrc32 port-HasClock port_arrivals
      (seconds 30) 2 (foreign ∷ []) echoes answer echo_bytes [] client_port (omega arith)
      (omega arith) (foreign_strays, tt) answer_answers answer_carried echoes_carried (inl refl)

echoes_data : All (IsDataOn drawn) echoes
echoes_data = ((refl, refl), ((refl, refl), tt))

echoes_good : good_count echoes ≡ 2
unfolding good_count
echoes_good = refl

run_peered-succeeds_example :
    EndsWell
      (λ w. w.clock)
      (seconds 3)
      (seconds 30)
      (run_peered port_host (seconds 30) 2 client_port)
run_peered-succeeds_example =
    run_peered-succeeds port_host port-IsLine port-IsCalm port-IsCrc32 port-HasClock port_arrivals
      (seconds 30) (foreign ∷ []) echoes answer echo_bytes [] client_port (omega arith)
      (omega arith) (omega arith) (foreign_strays, tt) answer_answers answer_carried echoes_data
      echoes_good echoes_carried

-- One byte of an earlier run, a FIN, a SYN, the same SYN again, and then its ACK.
abbrev pub call : Decoded
call = message syn drawn []

abbrev late_fin : Decoded
late_fin = message fin drawn []

abbrev ack_two : Decoded
ack_two = ack_message drawn two

abbrev ack_bytes : Bytes
ack_bytes = frames port_host (call ∷ []) ++ (frame port_host (payload_of ack_two) ++ [])

abbrev server_port : Port
server_port = record {
  rx = 9 ∷ (frames port_host (late_fin ∷ []) ++ (frame port_host (payload_of call) ++ ack_bytes));
  tx = [];
  clock = seconds 3;
  stale = 1;
}

ack_decoded : IsConsent drawn two ack_two
unfolding bytes_eq
ack_decoded = (refl, drawn, decode_ack-params drawn 2 refl (omega arith))

server_handshake-Accepted_example :
    Comes
      (server_handshake port_host (seconds 1) default_ack_timeout)
      server_port
      (Accepted port_host (λ w. w.rx) (λ w. w.tx) drawn two [] [])
      (OneTimeIsOver (λ w. w.clock) (seconds 3) (seconds 1) default_ack_timeout)
server_handshake-Accepted_example =
    server_handshake-Accepted port_host port-IsLine port-IsCrc32 port-HasClock port_arrivals
      (seconds 1) default_ack_timeout two (late_fin ∷ []) (call ∷ []) call ack_two ack_bytes []
      server_port (omega arith) (refl, tt) refl
      (stand_there (late_fin ∷ []) call ack_bytes ((refl, (refl, omega arith)), tt)
        (refl, (refl, omega arith)))
      (inl refl, tt) ack_decoded
      (stand_there (call ∷ []) ack_two [] ((refl, (refl, omega arith)), tt)
        (refl, (refl, omega (arith, length-to_bytes 4 2))))
