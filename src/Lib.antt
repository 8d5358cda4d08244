-- ===== src/Lib.antt =====
-- A verification library for the serial test kit: two machines test a serial line with a
-- client, which sends messages, and a server, which echoes them.
--
-- The parts, and how they interact. client/runner.py and server/runner.py open a port and run one
-- peer each. A peer first makes a connection (client/handshake.py, server/handshake.py: SYN,
-- SYN_ACK, ACK with the session's parameters), then exchanges the messages of the session
-- (session/exchange.py), then closes it (client/shutdown.py, server/shutdown.py: FIN, FIN_ACK).
-- All messages are encoded by common/encoding.py inside the frames of common/message.py.
-- peering.py is a second protocol, in which two equal peers race for the role of the initiator.
--
-- Which file models which part:
--   Exec           Python code with state and exceptions: a function from a world to a result (a
--                  value, an exception, or `stuck` for a loop out of fuel) and the next world;
--                  the modules below it have rules on how such code ends, what it returns and
--                  raises, and how it moves the world
--   Host           the serial port, the clock, the random sources and zlib, as a parameter, and in
--                  Host/Laws the documented behaviour that theorems assume of them
--   Message        common/message.py: encode, decode; the loop of decode is `resync`, and what it
--                  does behind the magic is `read_frame`
--   Protocol       common/protocol.py and common/connection.py
--   Encoding       common/encoding.py
--   SerialIo       common/io.py
--   Timed          the loop `while time.monotonic() - start < timeout` of the handshakes and the
--                  shutdown, with the retransmission of a message in it; Finds says what such a
--                  loop comes to in a list of items
--   Client         client/handshake.py, client/shutdown.py, client/runner.py; Peers, Greets and
--                  Sessions say what they do on a channel of messages
--   Server         server/handshake.py, server/shutdown.py, server/runner.py; Peers and Greets say
--                  what the handshake does on a channel of messages, Heard and Connections which
--                  frames of any line a connection comes from
--   Session        session/exchange.py and session/result.py; Outcome has the data, Stats what both
--                  loops share, ClientExchange and ServerExchange their
--                  loops; Latency the statistics of the round-trip times, Report the verdict of
--                  session/report.py; Rules is an abstract description of a session on a channel of
--                  messages, which Refines relates to both loops, and Echoes says what the server
--                  answers
--   Device         common/device.py, over an operating system that is a parameter
--   Peering        peering.py: Codec and Establish
--   DurationTest   tools/duration_test.py, with its loop of tests in Program
--   Remote         tools/remote.py: Text and Results read a test's output, Commands are the processes
--                  that it starts, Helper the methods of RemoteHelper, Program its `main`
--   Reporting      common/report.py and session/report.py, as the lines that they print
--   CommandLine    serialtest.py: `main` behind its parser
--   Termination    proofs that the loops come to an end
--   Errors         proofs on the exceptions that leave the programs
--   Channel        a line as a channel of messages: which bytes carry which messages, and what the
--                  functions of common/encoding.py and common/io.py make of them; Listens is about
--                  a loop that goes by the messages that it hears, Drops about what code takes from
--                  the front of the line
--   Composed       the two sides of a session, where one reads what the other writes
--   Examples       the theorems at concrete inputs
--
-- A Python function keeps its name. What a function does behind a call or an `except` clause is a
-- function of its own, called by what it is about (`on_client_reply`, `serve_peer`). The body of a
-- loop is a function that returns a `Round`: the loop variables for the next round, or the result.
--
-- Units and fuel. Times are natural numbers of nanoseconds, where the source has floating-point
-- seconds; rates are fractions, since the source divides. `resync` has 8193 rounds, one more than
-- the bytes that it may scan. A loop under a time limit has one round more than the limit has
-- nanoseconds, which is enough if every round reads from the port and a read takes a nanosecond.
-- The loop of the duration test has one round more than its time has nanoseconds, and a test sleeps
-- in between. The server's loop runs for a given number of turns, since it has no end but a signal.
--
-- The lines. A line has the bytes that are still to be read and those that are written; a count of
-- the world says how many of the first have arrived already, which is what `drain_input` throws away.
--
-- Not modelled: logging, argparse and the shell script pop, the defaults that tools/remote.py takes
-- from the environment, and negative numbers for parameters (the message count, the log
-- interval). A signal is a question to the world wherever server/runner.py reads `running`.
pub mod Prelude
pub mod Exec
pub mod Host
pub mod Message
pub mod Protocol
pub mod Encoding
pub mod SerialIo
pub mod Timed
pub mod Client
pub mod Server
pub mod Session
pub mod Remote
pub mod Reporting
pub mod CommandLine
pub mod Device
pub mod Peering
pub mod Composed
pub mod Termination
pub mod Channel
pub mod Errors
pub mod DurationTest
pub mod Examples
