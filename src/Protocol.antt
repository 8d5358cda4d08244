-- ===== src/Protocol.antt =====
-- common/protocol.py and common/connection.py: message types, times, parameters, connections.
use serial_testkit.Prelude.{
  ℕ, ◌*◌, ◌≡◌, refl, Bool, true, Option, none, some, ◌==◌, if◌then◌else◌, arith,
}
use serial_testkit.Prelude.Bytes.{Bytes}

-- `data_msg` is DATA.
pub data MsgType : Type 0 where
  syn syn_ack ack data_msg fin fin_ack : MsgType

-- The values of the IntEnum.
abbrev pub msg_code : MsgType → ℕ
msg_code syn = 0x01
msg_code syn_ack = 0x02
msg_code ack = 0x03
msg_code data_msg = 0x10
msg_code fin = 0x20
msg_code fin_ack = 0x21

-- `MsgType(value)`: `none` stands for its ValueError.
unfoldable pub msg_type_of : ℕ → Option MsgType
msg_type_of value =
    if value == 0x01
    then some syn
    else if value == 0x02
    then some syn_ack
    else if value == 0x03
    then some ack
    else if value == 0x10
    then some data_msg
    else if value == 0x20
    then some fin
    else if value == 0x21
    then some fin_ack
    else none

-- An IntEnum is compared by its value.
abbrev pub is_type : MsgType → MsgType → Bool
is_type a b = msg_code a == msg_code b

pub msg_type_of-msg_code : (t : MsgType) → msg_type_of (msg_code t) ≡ some t
unfolding msg_type_of
msg_type_of-msg_code syn = refl
msg_type_of-msg_code _ = refl

pub is_type→eq : (a b : MsgType) → is_type a b ≡ true → a ≡ b
is_type→eq a b h = ground arith

abbrev pub conn_id_size : ℕ
conn_id_size = 4

-- Times are in nanoseconds.
abbrev pub seconds : ℕ → ℕ
seconds n = n * 1_000_000_000

abbrev pub default_client_timeout : ℕ
default_client_timeout = seconds 60

abbrev pub default_syn_interval : ℕ
default_syn_interval = seconds 2

abbrev pub default_ack_timeout : ℕ
default_ack_timeout = seconds 10

abbrev pub fin_wait_timeout : ℕ
fin_wait_timeout = seconds 5

pub data Role : Type 0 where
  client server : Role

pub record SessionParams : Type 0 where
  pub msg_count : ℕ

pub record Connection : Type 0 where
  pub connection_id : Bytes
  pub role : Role
  pub session_params : Option SessionParams
