-- ===== src/Tftp/Handler/Client.antt =====
-- chapter6/server.go: a client of `handle`, as a specification. It reads packets by `Data.UnmarshalBinary` and keeps the payload of each packet
-- that carries the block number it expects, as the chapter's README says.

use networking_in_go.Prelude.{
  ℕ, ◌+◌, ◌*◌, true, false, List, [], ◌∷◌, ◌++◌, ◌≡◌, refl, sym, ap, ap₂, ◌∙◌, arith, Bytes, ◌==◌,
  if◌then◌else◌, take, drop, take-add, length-take, Option, none, some, ◌%◌, ◌≢◌,
}
use networking_in_go.Tftp.Data
use networking_in_go.Tftp.Data.{Data, Data-unmarshal_complete}
use networking_in_go.Tftp.Handler.Invariant.{block_number, block, datagram}
use networking_in_go.Tftp.Packet.{block_size, PacketError}

pub record Client : Type 0 where
  pub expected : ℕ
  pub got : Bytes

take_packet : Client → Data × Option PacketError → Client
take_packet c (d, some e) = c
take_packet c (d, none) =
    if d.block == c.expected
    then record { expected = Data.next_block c.expected; got = c.got ++ d.payload }
    else c

unfoldable pub accept : Client → Bytes → Client
unfolding take_packet
accept c p = take_packet c (Data.unmarshal (record { block = 0; payload = [] }) p)

unfoldable pub client : Client → List Bytes → Client
unfolding accept
client c [] = c
client c (p ∷ ps) = client (accept c p) ps

-- The client that has the first `k` blocks.
abbrev pub holding : Bytes → ℕ → Client
holding payload k = record { expected = block_number k; got = take (block_size * k) payload }

pub client-append :
    (c : Client) (ps : List Bytes) (p : Bytes) → client c (ps ++ p ∷ []) ≡ accept (client c ps) p
unfolding client
client-append c [] p = refl
client-append c (q ∷ ps) p = client-append (accept c q) ps p

module _ (payload : Bytes) where
  accept-datagram :
      (c : Client) (k : ℕ)
      → accept c (datagram payload k)
        ≡ take_packet c (record { block = block_number k; payload = block payload k }, none)
  unfolding accept datagram
  accept-datagram c k = ap (take_packet c) (
      Data-unmarshal_complete (record { block = 0; payload = [] }) (block_number k)
        (block payload k) (omega arith)
        (omega (arith, length-take block_size (drop (block_size * k) payload))))

  holding_next :
      (k : ℕ)
      → take (block_size * k) payload ++ block payload k ≡ take (block_size * (k + 1)) payload
  holding_next k =
      sym (take-add (block_size * k) block_size payload) ∙ ap (λ n. take n payload) (omega arith)

  take_packet_new :
      (k : ℕ)
      → take_packet
          (holding payload k)
          (record { block = block_number k; payload = block payload k }, none)
        ≡ record {
          expected = Data.next_block (block_number k);
          got = take (block_size * k) payload ++ block payload k;
        }
  unfolding take_packet
  take_packet_new k = let e : (block_number k == block_number k) ≡ true = ground arith in rw e

  pub accept_new :
      (k : ℕ) → accept (holding payload k) (datagram payload k) ≡ holding payload (k + 1)
  accept_new k =
      accept-datagram (holding payload k) k
      ∙ take_packet_new k
      ∙ ap₂ (λ e g. record { expected = e; got = g }) (omega arith) (holding_next k)

  pub accept_other :
      (k j : ℕ)
      → (j + 1) % 65536 ≢ (k + 1) % 65536
      → accept (holding payload k) (datagram payload j) ≡ holding payload k
  unfolding take_packet
  accept_other k j ne =
      let e : (block_number j == block_number k) ≡ false = ground arith in
      accept-datagram (holding payload k) j ∙ rw e

  pub accept_again :
      (k : ℕ) → accept (holding payload (k + 1)) (datagram payload k) ≡ holding payload (k + 1)
  accept_again k = accept_other (k + 1) k (omega arith)

abbrev pub start : Client
start = record { expected = 1; got = [] }
