-- ===== src/Tftp/Handler/Invariant.antt =====
-- chapter6/server.go: one round of `handle`, and the rule by which the properties of its loops are
-- proved.
use networking_in_go.Go.Binary.{put_u16}
use networking_in_go.Prelude.{
  ℕ, min, ◌+◌, ◌-◌, ◌*◌, ◌%◌, List, [], ◌∷◌, ◌++◌, ◌≡◌, ◌≢◌, refl, ap, ◌∙◌, ◌⊎◌, arith, Bytes,
  length, take, drop, drop-drop, length-take, length-drop, length-append,
}
use networking_in_go.Tftp.Data
use networking_in_go.Tftp.Data.{Data}
use networking_in_go.Tftp.Handler.{
  Attempt, write_failed, written, timeout, failed, received, waiting, completed, Session, read_into,
  Round, retry, next, stop, answer, answer_error, attempt, prepare, fresh,
}
use networking_in_go.Tftp.Packet.{datagram_size, block_size, op_data}

-- The number that block `k` of the payload is sent under, the bytes of the block, and its packet.
abbrev pub block_number : ℕ → ℕ
block_number k = (k + 1) % 65536

abbrev pub block : Bytes → ℕ → Bytes
block payload k = take block_size (drop (block_size * k) payload)

unfoldable pub datagram : Bytes → ℕ → Bytes
datagram payload k = put_u16 op_data ++ (put_u16 (block_number k) ++ block payload k)

-- The loop head is about to make the packet of block `k`.
pub record Ready (payload : Bytes) (k : ℕ) (s : Session) : Type 0 where
  pub number : s.data_pkt.block ≡ k % 65536
  pub unread : s.data_pkt.payload ≡ drop (block_size * k) payload
  pub buffer : length s.buf ≡ datagram_size

-- The session sends block `k`.
pub record Sends (payload : Bytes) (k : ℕ) (s : Session) : Type 0 where
  pub number : s.data_pkt.block ≡ block_number k
  pub unread : s.data_pkt.payload ≡ drop (block_size * (k + 1)) payload
  pub packet_is : s.packet ≡ datagram payload k
  pub buffer : length s.buf ≡ datagram_size

pub fresh-Ready : (payload : Bytes) → Ready payload 0 (fresh payload)
fresh-Ready payload = record { number = refl; unread = refl; buffer = refl }

prepare_number :
    (s : Session) (k : ℕ)
    → s.data_pkt.block ≡ k % 65536
    → Data.next_block s.data_pkt.block ≡ block_number k
prepare_number s k h = omega arith

pub prepare-Sends :
    {payload : Bytes} (retries k : ℕ) (s : Session)
    → Ready payload k s
    → Sends payload k (prepare retries s)
unfolding prepare Data.marshal datagram
prepare-Sends {payload} retries k s r = record {
  number = omega (arith, r.number);
  unread =
      ap (drop block_size) r.unread
      ∙ drop-drop block_size (block_size * k) payload
      ∙ ap (λ n. drop n payload) (omega arith);
  packet_is = rw (r.unread, prepare_number s k r.number);
  buffer = r.buffer;
}

-- What a round leaves as it was.
pub record Same (s s' : Session) : Type 0 where
  pub data_same : s'.data_pkt ≡ s.data_pkt
  pub packet_same : s'.packet ≡ s.packet
  pub tries_same : s'.tries ≡ s.tries
  pub buffer_same : length s'.buf ≡ length s.buf

abbrev pub sent_once : Session → List Bytes
sent_once s = s.sent ++ s.packet ∷ []

abbrev pub Keeps : Session → Round → Type 0
Keeps s (retry s') = Same s s' × (s'.sent ≡ sent_once s)
Keeps s (next s') = Same s s' × (s'.sent ≡ sent_once s) × (s'.ack_pkt ≡ s'.data_pkt.block)
Keeps s (stop o s') =
    Same s s' × ((s'.sent ≡ s.sent) ⊎ (s'.sent ≡ sent_once s)) × (o ≢ waiting) × (o ≢ completed)

length-read_into : (buf d : Bytes) → length (read_into buf d) ≡ length buf
unfolding read_into
length-read_into buf d = omega (
  arith,
  length-append (take (length buf) d) (drop (length d) buf),
  length-take (length buf) d,
  length-drop (length d) buf,
)

answer-Keeps : (s t : Session) → Same s t → t.sent ≡ sent_once s → Keeps s (answer t)
unfolding answer answer_error
answer-Keeps s t h e = ground arith

-- Every round that gets past the write has sent the packet once more, no round but a stop ends the
-- transfer, and the next packet comes after an acknowledgment of this one.
pub attempt-Keeps : (s : Session) (a : Attempt) → Keeps s (attempt s a)
unfolding attempt
attempt-Keeps s write_failed = ground arith
attempt-Keeps s (written timeout) = ground arith
attempt-Keeps s (written failed) = ground arith
attempt-Keeps s (written (received d)) =
    answer-Keeps s (record s { sent = sent_once s; buf = read_into s.buf d })
      (record {
        data_same = refl;
        packet_same = refl;
        tries_same = refl;
        buffer_same = length-read_into s.buf d;
      })
      refl

module _ {payload : Bytes} {k : ℕ} {s s' : Session} (sends : Sends payload k s)
    (same : Same s s') where
  pub Same-Sends : (t : ℕ) → Sends payload k (record s' { tries = t })
  Same-Sends t = record {
    number = ap (λ (d : Data). d.block) same.data_same ∙ sends.number;
    unread = ap (λ (d : Data). d.payload) same.data_same ∙ sends.unread;
    packet_is = same.packet_same ∙ sends.packet_is;
    buffer = same.buffer_same ∙ sends.buffer;
  }

  -- After the block's acknowledgment.
  pub Same-Ready : Ready payload (k + 1) s'
  Same-Ready = record {
    number = ap (λ (d : Data). d.block) same.data_same ∙ sends.number;
    unread = ap (λ (d : Data). d.payload) same.data_same ∙ sends.unread;
    buffer = same.buffer_same ∙ sends.buffer;
  }

-- A packet that is not full is the payload's last.
pub length-datagram :
    (payload : Bytes) (k : ℕ)
    → length (datagram payload k) ≡ 4 + min block_size (length payload - block_size * k)
unfolding datagram put_u16
length-datagram payload k = omega (
  arith,
  length-take block_size (drop (block_size * k) payload),
  length-drop (block_size * k) payload,
)
