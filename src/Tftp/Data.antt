-- ===== src/Tftp/Data.antt =====
-- chapter6/tftp.go: `Data`. Both payloads that the code makes are a `bytes.Reader`: the field holds
-- its unread bytes. A read from it fails with `io.EOF` alone, which `MarshalBinary` passes over.
use networking_in_go.Go.Binary.{put_u16, get_u16, IsByte}
use networking_in_go.Prelude.{
  ℕ, ◌+◌, ◌%◌, ◌≤◌, ◌<◌, not, ◌||◌, [], ◌∷◌, ◌++◌, ◌≡◌, refl, arith, Option, none, some, Bytes,
  Result, ok, err, ltb, ◌==◌, if◌then◌else◌, length, take, drop, All, length-take, min,
}
use networking_in_go.Go.Io.{IoError}
use networking_in_go.Tftp.Packet.{datagram_size, block_size, op_data, PacketError, invalid_data}

pub record Data : Type 0 where
  pub block : ℕ  -- uint16
  pub payload : Bytes

-- `d.Block++`
abbrev pub next_block : ℕ → ℕ
next_block b = (b + 1) % 65536

-- `io.CopyN` takes a block off the reader.
unfoldable pub marshal : Data → Data × Bytes
marshal d =
    let block' = next_block d.block in
    (
      record d { block = block'; payload = drop block_size d.payload },
      put_u16 op_data ++ (put_u16 block' ++ take block_size d.payload),
    )

unmarshal_block : Data → Result IoError (ℕ × Bytes) → Bytes → Data × Option PacketError
unmarshal_block d (err e) rest = (d, some invalid_data)
unmarshal_block d (ok (b, r)) rest = (record { block = b; payload = rest }, none)

unmarshal_op : Data → Result IoError (ℕ × Bytes) → Bytes → Data × Option PacketError
unfolding unmarshal_block
unmarshal_op d (err e) p = (d, some invalid_data)
unmarshal_op d (ok (op, r)) p =
    if not (op == op_data)
    then (d, some invalid_data)
    else unmarshal_block d (get_u16 (drop 2 (take 4 p))) (drop 4 p)

unfoldable pub unmarshal : Data → Bytes → Data × Option PacketError
unfolding unmarshal_op
unmarshal d p =
    if ltb (length p) 4 || ltb datagram_size (length p)
    then (d, some invalid_data)
    else unmarshal_op d (get_u16 (take 2 p)) p

length-put_u16 : (n : ℕ) → length (put_u16 n) ≡ 2
unfolding put_u16
length-put_u16 n = refl

-- The size of a packet: the header and the payload's next block.
pub length-marshal : (d : Data) → length (marshal d).1 ≡ 4 + min block_size (length d.payload)
unfolding marshal put_u16
length-marshal d = omega (arith, length-take block_size d.payload)

-- A packet with the operation code of data, a block number and at most 512 bytes is read.
pub Data-unmarshal_complete :
    (old : Data) (b : ℕ) (body : Bytes)
    → b < 65536
    → length body ≤ block_size
    → unmarshal old (put_u16 op_data ++ (put_u16 b ++ body))
      ≡ (record { block = b; payload = body }, none)
unfolding unmarshal put_u16 get_u16
Data-unmarshal_complete old b body h l = ground arith

-- A packet that `MarshalBinary` writes is read back by `UnmarshalBinary`, into any receiver: the
-- block number is the sender's plus one, modulo 65536, and the payload is the sender's next 512
-- bytes, or what is left of them.
pub Data-unmarshal-marshal :
    (d old : Data)
    → unmarshal old (marshal d).1
      ≡ (record { block = next_block d.block; payload = take block_size d.payload }, none)
unfolding marshal
Data-unmarshal-marshal d old =
    Data-unmarshal_complete old (next_block d.block) (take block_size d.payload) (omega arith)
      (omega (arith, length-take block_size d.payload))

-- Every packet of bytes that `UnmarshalBinary` accepts is the operation code of data, the block
-- number and the payload that it returns, which has 512 bytes at most.
pub Data-unmarshal_sound :
    (d : Data) (p : Bytes)
    → All IsByte p
    → (unmarshal d p).1 ≡ none
    → let d' = (unmarshal d p).0 in
      (p ≡ put_u16 op_data ++ (put_u16 d'.block ++ d'.payload)) × (length d'.payload ≤ block_size)
unfolding unmarshal get_u16 put_u16
Data-unmarshal_sound d [] b h = cc
Data-unmarshal_sound d (x ∷ []) b h = cc
Data-unmarshal_sound d (x ∷ y ∷ []) b h = cc
Data-unmarshal_sound d (x ∷ y ∷ z ∷ []) b h = cc
Data-unmarshal_sound d (x ∷ y ∷ z ∷ w ∷ r) (_, (_, (hz, (hw, _)))) h = ground arith
