-- ===== src/Tftp/ReadReq.antt =====
-- chapter6/tftp.go: `ReadReq`. Writes to a `bytes.Buffer` return no error, so `MarshalBinary`
-- always ends in its last return. `UnmarshalBinary` assigns to its receiver as it reads, also where
-- it then fails: it returns the receiver beside the error.
pub mod Accepts
use networking_in_go.Go.Binary.{put_u16, get_u16}
use networking_in_go.Go.Text.{read_string, trim_right, to_lower}
use networking_in_go.Prelude.{
  ℕ, Bool, true, false, not, [], ◌∷◌, ◌++◌, Option, none, some, map, Bytes, codes, equal, Result,
  ok, err, ◌==◌, if◌then◌else◌,
}
use networking_in_go.Tftp.Packet.{op_rrq, PacketError, bad_op, invalid_rrq, only_binary}

pub record ReadReq : Type 0 where
  pub filename : Bytes
  pub mode : Bytes

abbrev pub octet : Bytes
octet = codes "octet"

-- `mode := "octet"; if q.Mode != "" { mode = q.Mode }`
unfoldable pub request_mode : ReadReq → Bytes
request_mode q = if equal q.mode [] then octet else q.mode

pub marshal : ReadReq → Bytes
marshal q = put_u16 op_rrq ++ (q.filename ++ 0 ∷ (request_mode q ++ 0 ∷ []))

-- From `q.Mode, err = r.ReadString(0)` on.
unmarshal_mode : ReadReq → Bytes → ReadReq × Option PacketError
unmarshal_mode q r =
    let (line, rest, found) = read_string 0 r in
    let q' = record q { mode = trim_right 0 line } in
    if not found
    then (record q { mode = line }, some invalid_rrq)
    else if equal q'.mode []
    then (q', some invalid_rrq)
    else if not (equal (map to_lower q'.mode) octet)
    then (q', some only_binary)
    else (q', none)

-- From `q.Filename, err = r.ReadString(0)` on.
unmarshal_filename : ReadReq → Bytes → ReadReq × Option PacketError
unfolding unmarshal_mode
unmarshal_filename q r =
    let (line, rest, found) = read_string 0 r in
    let q' = record q { filename = trim_right 0 line } in
    if not found
    then (record q { filename = line }, some invalid_rrq)
    else if equal q'.filename []
    then (q', some invalid_rrq)
    else unmarshal_mode q' rest

unmarshal_op : ReadReq → ℕ → Bytes → ReadReq × Option PacketError
unfolding unmarshal_filename
unmarshal_op q op r = if not (op == op_rrq) then (q, some invalid_rrq) else unmarshal_filename q r

unfoldable pub unmarshal : ReadReq → Bytes → ReadReq × Option PacketError
unfolding unmarshal_op
unmarshal q p = elim (get_u16 p) [ err e ↦ (q, some (bad_op e)) | ok (op, r) ↦ unmarshal_op q op r ]
