-- ===== src/Tftp/Handler/Progress.antt =====
-- chapter6/server.go: a transfer over a network that loses packets and repeats acknowledgments.
use networking_in_go.Go.Binary.{put_u16}
use networking_in_go.Prelude.{
  ℕ, suc, ◌+◌, ◌-◌, ◌*◌, ◌<◌, List, [], ◌∷◌, ◌++◌, ◌≡◌, ◌≢◌, refl, ap, ◌∙◌, All, arith, Bytes, ◌==◌,
  length, if◌then◌else◌, true, false, min, drop, take_of_le,
}
use networking_in_go.Tftp.Ack
use networking_in_go.Tftp.Handler.Invariant.{
  Sends, fresh-Ready, prepare-Sends, attempt-Keeps, sent_once, Same, Same-Sends, Same-Ready,
  length-datagram, block_number,
}
use networking_in_go.Tftp.Handler.Bounds.{blocks_of}
use networking_in_go.Tftp.Handler.{
  Attempt, written, timeout, received, completed, Session, retry, next, prepare, run, fresh, handle,
  attempt, read_into, answer,
}
use networking_in_go.Tftp.Packet.{datagram_size, block_size}

-- What may come in place of the acknowledgment that `handle` waits for.
pub data Nuisance : Type 0 where
  lost : Nuisance
  stale : ℕ → Nuisance

abbrev pub happens : Nuisance → Attempt
happens lost = written timeout
happens (stale b) = written (received (Ack.marshal b))

-- A stale acknowledgment is of another block than the one being sent.
abbrev pub Harmless : ℕ → Nuisance → Type 0
Harmless k lost = Unit
Harmless k (stale b) = (b < 65536) × (b ≢ block_number k)

-- For each block what goes wrong, and then its acknowledgment.
abbrev pub script : ℕ → List Nuisance → List (List Nuisance) → List Attempt
script k (n ∷ ns) rest = happens n ∷ script k ns rest
script k [] [] = written (received (Ack.marshal (block_number k))) ∷ []
script k [] (ns ∷ rest) = written (received (Ack.marshal (block_number k))) ∷ script (k + 1) ns rest

read_into_ack :
    (b : ℕ) (buf : Bytes)
    → length buf ≡ datagram_size
    → read_into buf (Ack.marshal b) ≡ Ack.marshal b ++ drop 4 buf
unfolding read_into Ack.marshal put_u16
read_into_ack b buf h =
    ap (λ l. l ++ drop 4 buf) (take_of_le (length buf) (Ack.marshal b) (omega (arith, h)))

-- The session once `conn.Read` has put an acknowledgment of block `b` into the buffer.
abbrev answered : Session → ℕ → Session
answered s b = record s { sent = sent_once s; buf = Ack.marshal b ++ drop 4 s.buf; ack_pkt = b }

attempt_ack :
    (s : Session) (b : ℕ)
    → length s.buf ≡ datagram_size
    → b < 65536
    → attempt s (written (received (Ack.marshal b)))
      ≡ (if b == s.data_pkt.block then next (answered s b) else retry (answered s b))
unfolding attempt answer
attempt_ack s b h lt =
    rw (read_into_ack b s.buf h)
      (rw (Ack.Ack-unmarshal-marshal b s.ack_pkt (drop 4 s.buf) lt, answer))

-- The blocks from `k` on can be sent: what goes wrong with each is less than its tries.
abbrev pub Survivable : ℕ → ℕ → List (List Nuisance) → Type 0
Survivable retries k [] = Unit
Survivable retries k (ns ∷ rest) =
    All (Harmless k) ns × (length ns < retries) × Survivable retries (k + 1) rest

module _ {payload : Bytes} {k : ℕ} {s : Session} (sends : Sends payload k s) where
  nuisance-retry :
      (n : Nuisance) → Harmless k n → (s' : Session) × (attempt s (happens n) ≡ retry s')
  nuisance-retry lost h = (record s { sent = sent_once s }, unfold attempt in refl)
  nuisance-retry (stale b) (lt, ne) =
      (answered s b, attempt_ack s b sends.buffer lt ∙ ground (arith, sends.number))

  ack-next :
      attempt s (written (received (Ack.marshal (block_number k))))
      ≡ next (answered s (block_number k))
  ack-next =
      attempt_ack s (block_number k) sends.buffer (omega arith) ∙ ground (arith, sends.number)

  -- The rounds that a block takes.
  run_nuisance :
      (retries : ℕ) (n : Nuisance) (rest : List Attempt)
      → Harmless k n
      → 1 < s.tries
      → (s' : Session) × Sends payload k s'
        × (s'.tries ≡ s.tries - 1)
        × (run retries s (happens n ∷ rest) ≡ run retries s' rest)
  unfolding run
  run_nuisance retries n rest h lt =
      let (t, e) = nuisance-retry n h in
      let kept = rw e at (attempt-Keeps s (happens n)) in
      let more : (t.tries - 1 == 0) ≡ false = ground (arith, kept.0.tries_same) in
      (
        record t { tries = t.tries - 1 },
        Same-Sends sends kept.0 (t.tries - 1),
        omega (arith, kept.0.tries_same),
        rw (e, run) (rw more),
      )

  answered-Same : Same s (answered s (block_number k))
  answered-Same =
      (rw ack-next at (attempt-Keeps s (written (received (Ack.marshal (block_number k)))))).0

  length-packet : length s.packet ≡ 4 + min block_size (length payload - block_size * k)
  length-packet = ap length sends.packet_is ∙ length-datagram payload k

  run_last :
      (retries : ℕ) (rest : List Attempt)
      → k + 1 ≡ blocks_of payload
      → (run retries s (written (received (Ack.marshal (block_number k))) ∷ rest)).1 ≡ completed
  unfolding run
  run_last retries rest e =
      let short : (length s.packet == datagram_size) ≡ false = ground (arith, length-packet) in
      rw (ack-next, run) (rw short)

  run_ack :
      (retries : ℕ) (rest : List Attempt)
      → k + 1 < blocks_of payload
      → run retries s (written (received (Ack.marshal (block_number k))) ∷ rest)
        ≡ run retries (prepare retries (answered s (block_number k))) rest
  unfolding run
  run_ack retries rest lt =
      let full : (length s.packet == datagram_size) ≡ true = ground (arith, length-packet) in
      rw (ack-next, run) (rw full)

module _ {payload : Bytes} (retries : ℕ) where
  progress :
      (k : ℕ) (s : Session) (ns : List Nuisance) (rest : List (List Nuisance))
      → Sends payload k s
      → All (Harmless k) ns
      → length ns < s.tries
      → Survivable retries (k + 1) rest
      → k + 1 + length rest ≡ blocks_of payload
      → (run retries s (script k ns rest)).1 ≡ completed
  progress k s (n ∷ ns) rest sends (h, hs) lt ok_rest e =
      let (t, sends', tries_left, step) =
        run_nuisance sends retries n (script k ns rest) h (omega arith) in
      rw step (progress k t ns rest sends' hs (omega arith) ok_rest e)
  progress k s [] [] sends h lt ok_rest e = run_last sends retries [] (omega arith)
  progress k s [] (ns ∷ rest) sends h lt (hs, few, ok_rest) e =
      rw (run_ack sends retries (script (k + 1) ns rest) (omega arith)) (
        progress (k + 1) (prepare retries (answered s (block_number k))) ns rest
          (prepare-Sends retries (k + 1) _ (Same-Ready sends (answered-Same sends))) hs
          (unfold prepare in few) ok_rest (omega arith))

-- A transfer completes if the client acknowledges every block of the payload, though before each
-- acknowledgment packets are lost or acknowledgments of other blocks come in, fewer times for a
-- block than the server retries.
pub handle_completes :
    (retries : ℕ) (payload : Bytes) (ns : List Nuisance) (rest : List (List Nuisance))
    → Survivable retries 0 (ns ∷ rest)
    → suc (length rest) ≡ blocks_of payload
    → (handle true retries payload (script 0 ns rest)).1 ≡ completed
unfolding handle
handle_completes retries payload ns rest (h, few, ok_rest) e =
    let pos : (retries == 0) ≡ false = ground arith in
    rw pos (
      progress retries 0 (prepare retries (fresh payload)) ns rest
        (prepare-Sends retries 0 (fresh payload) (fresh-Ready payload)) h (unfold prepare in few)
        ok_rest (omega arith))
