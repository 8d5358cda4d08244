-- ===== src/Session/Rules.antt =====
-- What both sides of a session do on a channel of messages, without bytes, clock or random data.
use serial_testkit.Prelude.{ℕ, zero, suc, ◌+◌, not, List, [], ◌∷◌, length, if◌then◌else◌}
use serial_testkit.Prelude.Bytes.{Bytes, bytes_eq}
use serial_testkit.Protocol.{MsgType, data_msg, fin}
use serial_testkit.Encoding.{Decoded}
use serial_testkit.Session.Outcome.{SessionStats}

-- What was received.
pub record Tally : Type 0 where
  pub received : ℕ
  pub crc_ok : ℕ
  pub crc_errors : ℕ
  pub bytes_received : ℕ

abbrev pub nothing_yet : Tally
nothing_yet = record { received = 0; crc_ok = 0; crc_errors = 0; bytes_received = 0 }

-- The part of the statistics that the messages determine.
abbrev pub tally_of : SessionStats → Tally
tally_of s = record {
  received = s.received;
  crc_ok = s.crc_ok;
  crc_errors = s.crc_errors;
  bytes_received = s.bytes_received;
}

abbrev pub tally : Tally → Decoded → Tally
tally t m = record {
  received = t.received + 1;
  crc_ok = if m.crc_ok then t.crc_ok + 1 else t.crc_ok;
  crc_errors = if m.crc_ok then t.crc_errors else t.crc_errors + 1;
  bytes_received = t.bytes_received + length m.content;
}

-- How the messages end a session: all rounds have had theirs, with these left; none came in time in
-- a round, or one of another connection; the peer closed; or a message was of the wrong type.
pub data Ending : Type 0 where
  complete : List Decoded → Ending
  missing : ℕ → Ending
  closed : Ending
  unexpected : Ending

-- What one message means for a round: it is counted, or it ends the session.
pub data Effect : Type 0 where
  counted : Effect
  ending : Ending → Effect

abbrev pub effect_of_type : MsgType → Effect
effect_of_type data_msg = counted
effect_of_type fin = ending closed
effect_of_type _ = ending unexpected

abbrev pub effect : Bytes → ℕ → Decoded → Effect
effect conn_id i m =
    if not (bytes_eq m.conn_id conn_id) then ending (missing (i + 1)) else effect_of_type m.msg_type

-- Where the effect on a round leads.
abbrev pub after : Effect → Tally → Ending × Tally → Ending × Tally
after counted t rest = rest
after (ending e) t rest = (e, t)

-- The rounds that are left, from round `i`.
unfoldable pub rounds : Bytes → ℕ → ℕ → Tally → List Decoded → Ending × Tally
rounds conn_id zero i t ms = (complete ms, t)
rounds conn_id (suc left) i t [] = (missing (i + 1), t)
rounds conn_id (suc left) i t (m ∷ ms) =
    after (effect conn_id i m) t (rounds conn_id left (i + 1) (tally t m) ms)
