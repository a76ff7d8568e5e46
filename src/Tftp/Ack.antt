-- ===== src/Tftp/Ack.antt =====
-- chapter6/tftp.go: `Ack`, a block number.
use networking_in_go.Go.Binary.{put_u16, get_u16, IsByte}
use networking_in_go.Go.Io.{IoError}
use networking_in_go.Prelude.{
  ℕ, ◌<◌, not, [], ◌∷◌, ◌++◌, ◌≡◌, arith, Option, none, some, Bytes, Result, ok, err, ◌==◌,
  if◌then◌else◌, All,
}
use networking_in_go.Tftp.Packet.{op_ack, PacketError, io, invalid_ack}

abbrev pub Ack : Type 0
Ack = ℕ  -- uint16

unfoldable pub marshal : Ack → Bytes
marshal a = put_u16 op_ack ++ put_u16 a

unmarshal_block : Ack → Result IoError (ℕ × Bytes) → Ack × Option PacketError
unmarshal_block a (err e) = (a, some (io e))
unmarshal_block a (ok (n, r)) = (n, none)

unmarshal_op : Ack → Result IoError (ℕ × Bytes) → Ack × Option PacketError
unfolding unmarshal_block
unmarshal_op a (err e) = (a, some (io e))
unmarshal_op a (ok (code, r)) =
    if not (code == op_ack) then (a, some invalid_ack) else unmarshal_block a (get_u16 r)

unfoldable pub unmarshal : Ack → Bytes → Ack × Option PacketError
unfolding unmarshal_op
unmarshal a p = unmarshal_op a (get_u16 p)

-- A marshalled block number is read back, with any bytes behind it and into any receiver.
pub Ack-unmarshal-marshal :
    (a old : Ack) (rest : Bytes) → a < 65536 → unmarshal old (marshal a ++ rest) ≡ (a, none)
unfolding unmarshal unmarshal_op marshal get_u16 put_u16
Ack-unmarshal-marshal a old rest h = ground arith

-- Every packet of bytes that is accepted begins with the marshalled block number that is returned.
pub Ack-unmarshal_sound :
    (old : Ack) (p : Bytes)
    → All IsByte p
    → (unmarshal old p).1 ≡ none
    → (rest : Bytes) × (p ≡ marshal (unmarshal old p).0 ++ rest)
unfolding unmarshal marshal get_u16 put_u16
Ack-unmarshal_sound old [] b h = cc
Ack-unmarshal_sound old (x ∷ []) b h = cc
Ack-unmarshal_sound old (x ∷ y ∷ []) b h = ground arith
Ack-unmarshal_sound old (x ∷ y ∷ z ∷ []) b h = ground arith
Ack-unmarshal_sound old (x ∷ y ∷ z ∷ w ∷ r) (_, (_, (hz, (hw, _)))) h = (r, ground arith)
