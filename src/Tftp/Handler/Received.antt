-- ===== src/Tftp/Handler/Received.antt =====
-- chapter6/server.go: what a client makes of the datagrams that reach it, which the network may lose, repeat
-- and reorder.
use networking_in_go.Prelude.{
  ℕ, ◌+◌, ◌-◌, ◌*◌, ◌≤◌, ◌<◌, List, [], ◌∷◌, ◌≡◌, ◌≢◌, refl, ap, sym, ◌∙◌, inl, inr, arith, Bytes,
  ◌==◌, length, true, false, All, All-snoc, Among, subst, take_of_le, Bool-cases, Bool,
}
use networking_in_go.Tftp.Handler.Bounds.{blocks_of, full_block}
use networking_in_go.Tftp.Handler.Client.{
  Client, client, start, holding, accept, accept_new, accept_other,
}
use networking_in_go.Tftp.Handler.Delivery.{handle-Result}
use networking_in_go.Tftp.Handler.Invariant.{
  Sends, fresh-Ready, prepare-Sends, sent_once, Same, Same-Sends, Same-Ready, datagram,
  block_number, length-datagram,
}
use networking_in_go.Tftp.Handler.Rule.{Rule, run_rule}
use networking_in_go.Tftp.Handler.{
  Attempt, Outcome, waiting, completed, dial_error, exhausted, Session, prepare, fresh, handle,
}
use networking_in_go.Tftp.Data
use networking_in_go.Tftp.Data.{Data}
use networking_in_go.Tftp.Packet.{datagram_size, block_size}

All-Among : (P : Bytes → Type 0) (xs : List Bytes) {p : Bytes} → All P xs → Among p xs → P p
All-Among P [] h m = absurd m
All-Among P (q ∷ qs) h (inl e) = subst P (sym e) h.0
All-Among P (q ∷ qs) h (inr m) = All-Among P qs h.1 m

module _ (payload : Bytes) where
  -- One of the blocks of the payload.
  abbrev IsBlock : Bytes → Type 0
  IsBlock p = (k : ℕ) × (k < blocks_of payload) × (p ≡ datagram payload k)

  record Blocks (s : Session) : Type 0 where
    index : ℕ
    sends : Sends payload index s
    in_range : index < blocks_of payload
    all_blocks : All IsBlock s.sent

  sent_once-IsBlock : (s : Session) → Blocks s → All IsBlock (sent_once s)
  sent_once-IsBlock s b =
      All-snoc IsBlock s.sent s.packet b.all_blocks (b.index, b.in_range, b.sends.packet_is)

  prepare-Blocks :
      (retries : ℕ) {s : Session} (s' : Session)
      → Blocks s
      → Same s s'
      → s'.sent ≡ sent_once s
      → length s'.packet ≡ datagram_size
      → Blocks (prepare retries s')
  unfolding prepare
  prepare-Blocks retries {s} s' b same e full = record {
    index = b.index + 1;
    sends = prepare-Sends retries (b.index + 1) s' (Same-Ready b.sends same);
    in_range =
        full_block payload retries b.index
          (ap length (sym (same.packet_same ∙ b.sends.packet_is)) ∙ full);
    all_blocks = subst (All IsBlock) (sym e) (sent_once-IsBlock s b);
  }

  -- Behind a completed transfer the acknowledgment is one of the last block.
  abbrev Q : ℕ → Session → Outcome → Type 0
  Q n s o =
      All IsBlock s.sent
      × (o ≡ completed → Data.next_block s.ack_pkt ≡ block_number (blocks_of payload))

  last_acked :
      (s s' : Session) (b : Blocks s)
      → Same s s'
      → s'.ack_pkt ≡ s'.data_pkt.block
      → length s'.packet ≢ datagram_size
      → Data.next_block s'.ack_pkt ≡ block_number (blocks_of payload)
  last_acked s s' b same acked last =
      let short : length (datagram payload b.index) ≢ datagram_size =
        λ h. last (ap length (same.packet_same ∙ b.sends.packet_is) ∙ h) in
      let n : s'.ack_pkt ≡ block_number b.index =
        acked ∙ ap (λ (d : Data). d.block) same.data_same ∙ b.sends.number in
      let k : b.index + 1 ≡ blocks_of payload =
        omega (arith, length-datagram payload b.index, b.in_range) in
      ap Data.next_block n ∙ (omega arith)

  no_end : ¬ (waiting ≡ completed)
  no_end w = cc

  no_rest : ¬ (exhausted ≡ completed)
  no_rest w = cc

  rule : (retries : ℕ) → Rule retries (λ n s. Blocks s) Q
  rule retries = record {
    at_end = λ n s b. (b.all_blocks, λ w. absurd (no_end w));
    at_stop = λ n s s' o b (same, e, _, ne). (
      elim e [
        | inl x ↦ subst (All IsBlock) (sym x) b.all_blocks
        | inr x ↦ subst (All IsBlock) (sym x) (sent_once-IsBlock s b)
      ],
      λ w. absurd (ne w),
    );
    at_retry = λ n s s' b (same, e) lt. record {
      index = b.index;
      sends = Same-Sends b.sends same (s'.tries - 1);
      in_range = b.in_range;
      all_blocks = subst (All IsBlock) (sym e) (sent_once-IsBlock s b);
    };
    at_exhausted = λ n s s' b (same, e) le.
        (subst (All IsBlock) (sym e) (sent_once-IsBlock s b), λ w. absurd (no_rest w));
    at_next = λ n s s' b (same, e, _) full. prepare-Blocks retries s' b same e full;
    at_completed = λ n s s' b (same, e, acked) last. (
      subst (All IsBlock) (sym e) (sent_once-IsBlock s b),
      λ w. last_acked s s' b same acked last,
    );
  }

  start-Blocks : (retries : ℕ) → Blocks (prepare retries (fresh payload))
  unfolding prepare
  start-Blocks retries = record {
    index = 0;
    sends = prepare-Sends retries 0 (fresh payload) (fresh-Ready payload);
    in_range = omega arith;
    all_blocks = tt;
  }

  no_dial : ¬ (dial_error ≡ completed)
  no_dial w = cc

  handle-IsBlock :
      (dialed : Bool) (retries : ℕ) (script : List Attempt)
      → let (s, o) = handle dialed retries payload script in
        All IsBlock s.sent
        × (o ≡ completed → Data.next_block s.ack_pkt ≡ block_number (blocks_of payload))
  unfolding handle
  handle-IsBlock false retries script = (tt, λ w. absurd (no_dial w))
  handle-IsBlock true retries script = elim (Bool-cases (retries == 0)) [
    | inl z ↦ rw z ((start-Blocks retries).all_blocks, λ w. absurd (no_rest w))
    | inr z ↦ rw z (
        (run_rule retries (λ n s. Blocks s) Q (rule retries) script 0 (length script) _
          (omega arith) (start-Blocks retries)).holds)
  ]

  -- The client keeps its blocks or takes the next one.
  accept-IsBlock :
      (k : ℕ) (p : Bytes)
      → blocks_of payload < 65536
      → k ≤ blocks_of payload
      → IsBlock p
      → (k' : ℕ) × (k' ≤ blocks_of payload) × (accept (holding payload k) p ≡ holding payload k')
  accept-IsBlock k p small le (j, lt, e) = elim (Bool-cases (j == k)) [
    | inl z ↦
        let same : j ≡ k = ground arith in
        (
          k + 1,
          omega arith,
          ap (accept (holding payload k)) (e ∙ ap (datagram payload) same) ∙ accept_new payload k,
        )
    | inr z ↦
        let other : j ≢ k = ground arith in
        (k, le, ap (accept (holding payload k)) e ∙ accept_other payload k j (omega arith))
  ]

  client-IsBlock :
      (ps : List Bytes) (k : ℕ)
      → blocks_of payload < 65536
      → k ≤ blocks_of payload
      → All IsBlock ps
      → (k' : ℕ) × (k' ≤ blocks_of payload) × (client (holding payload k) ps ≡ holding payload k')
  unfolding client
  client-IsBlock [] k small le h = (k, le, refl)
  client-IsBlock (p ∷ ps) k small le h =
      let (j, lj, e) = accept-IsBlock k p small le h.0 in
      let (i, li, f) = client-IsBlock ps j small lj h.1 in (i, li, ap (λ c. client c ps) e ∙ f)

-- Datagrams that all were sent: in any order, any of them lost or repeated.
abbrev pub AllSent : List Bytes → List Bytes → Type 0
AllSent sent ps = All (λ p. Among p sent) ps

AllSent-IsBlock :
    (payload : Bytes) (sent ps : List Bytes)
    → All (IsBlock payload) sent
    → AllSent sent ps
    → All (IsBlock payload) ps
AllSent-IsBlock payload sent [] h a = tt
AllSent-IsBlock payload sent (p ∷ ps) h a =
    (All-Among (IsBlock payload) sent h a.0, AllSent-IsBlock payload sent ps h a.1)

-- What a client has of the payload that got these datagrams: the first blocks of it, and all of it once
-- the client waits for the block behind the last.
pub record Partial (payload : Bytes) (c : Client) : Type 0 where
  pub blocks : ℕ
  pub prefix : c ≡ holding payload blocks
  pub whole : c.expected ≡ block_number (blocks_of payload) → c.got ≡ payload

client-Partial :
    (payload : Bytes) (ps : List Bytes)
    → blocks_of payload < 65536
    → All (IsBlock payload) ps
    → Partial payload (client start ps)
client-Partial payload ps small h =
    let (k, le, e) = client-IsBlock payload ps 0 small (omega arith) h in
    record {
      blocks = k;
      prefix = e;
      whole = λ w.
          let n : block_number k ≡ block_number (blocks_of payload) =
            ap (λ (c : Client). c.expected) (sym e) ∙ w in
          ap (λ (c : Client). c.got) e ∙ take_of_le (block_size * k) payload (omega (arith, n));
    }

-- Whatever becomes of the answers, and whichever of the datagrams that `handle` sends reach the client, in
-- whatever order and how often: if the payload has fewer than 65536 blocks, a client that keeps the blocks
-- in the order of their numbers has a prefix of the payload in whole blocks, and the payload once it has
-- the last block. When `handle` has completed, the client has the payload if it waits for the block behind
-- the one whose acknowledgment `handle` has read last, and also if each datagram has reached it as it was
-- sent.
pub handle-Partial :
    (dialed : Bool) (retries : ℕ) (payload : Bytes) (script : List Attempt) (ps : List Bytes)
    → blocks_of payload < 65536
    → let (s, o) = handle dialed retries payload script in
      AllSent s.sent ps
      → Partial payload (client start ps)
        × (o ≡ completed
            → (client start ps).expected ≡ Data.next_block s.ack_pkt
            → (client start ps).got ≡ payload)
        × (o ≡ completed → (client start s.sent).got ≡ payload)
handle-Partial dialed retries payload script ps small sent =
    let (blocks, acked) = handle-IsBlock payload dialed retries script in
    let part = client-Partial payload ps small (AllSent-IsBlock payload _ ps blocks sent) in
    (part, λ w e. part.whole (e ∙ acked w), (handle-Result dialed retries payload script).whole)
