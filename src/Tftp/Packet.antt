-- ===== src/Tftp/Packet.antt =====
-- chapter6/tftp.go: sizes, operation codes and the errors that the packets' methods return.
use networking_in_go.Go.Io.{IoError}
use networking_in_go.Prelude.{ℕ, ◌-◌}

abbrev pub datagram_size : ℕ
datagram_size = 516

abbrev pub block_size : ℕ
block_size = datagram_size - 4

-- `iota + 1`, with the second value skipped.
abbrev pub op_rrq : ℕ
op_rrq = 1

abbrev pub op_data : ℕ
op_data = 3

abbrev pub op_ack : ℕ
op_ack = 4

abbrev pub op_err : ℕ
op_err = 5

-- `io` carries an error of `binary.Read` or `ReadString`; the rest are the packets' own texts.
pub data PacketError : Type 0 where
  bad_op : IoError → PacketError
  io : IoError → PacketError
  invalid_rrq only_binary invalid_data invalid_ack invalid_error : PacketError
