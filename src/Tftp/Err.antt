-- ===== src/Tftp/Err.antt =====
-- chapter6/tftp.go: `Err`.
use networking_in_go.Go.Binary.{put_u16, get_u16}
use networking_in_go.Go.Io.{IoError, eof}
use networking_in_go.Go.Text.{read_string, trim_right, Lacks, read_string-append, trim_right-append}
use networking_in_go.Prelude.{
  ℕ, ◌<◌, not, [], ◌∷◌, ◌++◌, ◌≡◌, arith, Option, none, some, Bytes, Result, ok, err, ◌==◌,
  if◌then◌else◌, append_assoc,
}
use networking_in_go.Tftp.Packet.{op_err, PacketError, io, invalid_error}

pub record Err : Type 0 where
  pub error : ℕ  -- uint16
  pub message : Bytes

unfoldable pub marshal : Err → Bytes
marshal e = put_u16 op_err ++ (put_u16 e.error ++ (e.message ++ 0 ∷ []))

-- From `e.Message, err = r.ReadString(0)` on.
unmarshal_message : Err → Bytes → Err × Option PacketError
unmarshal_message e r =
    let (line, rest, found) = read_string 0 r in
    if not found
    then (record e { message = line }, some (io eof))
    else (record e { message = trim_right 0 line }, none)

unmarshal_code : Err → Result IoError (ℕ × Bytes) → Err × Option PacketError
unfolding unmarshal_message
unmarshal_code e (err x) = (e, some (io x))
unmarshal_code e (ok (n, r)) = unmarshal_message (record e { error = n }) r

unmarshal_op : Err → Result IoError (ℕ × Bytes) → Err × Option PacketError
unfolding unmarshal_code
unmarshal_op e (err x) = (e, some (io x))
unmarshal_op e (ok (code, r)) =
    if not (code == op_err) then (e, some invalid_error) else unmarshal_code e (get_u16 r)

unfoldable pub unmarshal : Err → Bytes → Err × Option PacketError
unfolding unmarshal_op
unmarshal e p = unmarshal_op e (get_u16 p)

-- A marshalled error is read back, with any bytes behind it and into any receiver, if its message
-- holds no zero byte.
pub Err-unmarshal-marshal :
    (e old : Err) (rest : Bytes)
    → e.error < 65536
    → Lacks 0 e.message
    → unmarshal old (marshal e ++ rest) ≡ (e, none)
unfolding unmarshal marshal put_u16 get_u16
Err-unmarshal-marshal e old rest h l = ground (
  arith,
  append_assoc e.message (0 ∷ []) rest,
  read_string-append 0 e.message rest l,
  trim_right-append 0 e.message l,
)
