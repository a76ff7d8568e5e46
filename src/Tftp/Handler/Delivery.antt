-- ===== src/Tftp/Handler/Delivery.antt =====
-- chapter6/server.go: what a client makes of the datagrams that `handle` sends.
use networking_in_go.Prelude.{
  ℕ, ◌+◌, ◌-◌, ◌*◌, Bool, true, false, List, ◌≡◌, ◌≢◌, refl, ap, ◌∙◌, ◌⊎◌, inl, inr, arith, Bytes,
  ◌==◌, length, take, take_of_le, Bool-cases,
}
use networking_in_go.Tftp.Handler.Client.{
  client, start, holding, accept, accept_new, accept_again, client-append,
}
use networking_in_go.Tftp.Handler.Invariant.{
  Sends, fresh-Ready, prepare-Sends, sent_once, Same, Same-Sends, Same-Ready, length-datagram,
  datagram,
}
use networking_in_go.Tftp.Handler.Rule.{Rule, run_rule}
use networking_in_go.Tftp.Handler.{
  Attempt, Outcome, waiting, completed, exhausted, Session, prepare, fresh, handle,
}
use networking_in_go.Tftp.Packet.{datagram_size, block_size}

module _ (payload : Bytes) where
  -- The client has the blocks before the one being sent, and perhaps that one.
  record Delivered (k : ℕ) (s : Session) : Type 0 where
    sends : Sends payload k s
    behind :
        (client start s.sent ≡ holding payload k) ⊎ (client start s.sent ≡ holding payload (k + 1))

  -- The client has a prefix of the payload in whole blocks, and all of it if the transfer completed.
  pub record Result (s : Session) (o : Outcome) : Type 0 where
    pub blocks : ℕ
    pub prefix : client start s.sent ≡ holding payload blocks
    pub whole : o ≡ completed → (client start s.sent).got ≡ payload

  abbrev P : ℕ → Session → Type 0
  P n s = (k : ℕ) × Delivered k s

  abbrev Q : ℕ → Session → Outcome → Type 0
  Q n s o = Result s o

  client-sent_once :
      {k : ℕ} {s : Session} → Delivered k s → client start (sent_once s) ≡ holding payload (k + 1)
  client-sent_once {k} {s} d =
      client-append start s.sent s.packet
      ∙ ap (accept (client start s.sent)) d.sends.packet_is
      ∙ elim d.behind [
        | inl e ↦ rw e (accept_new payload k)
        | inr e ↦ rw e (accept_again payload k)
      ]

  Delivered-Result :
      {k : ℕ} {s : Session} (s' : Session) (o : Outcome)
      → o ≢ completed
      → s'.sent ≡ s.sent
      → Delivered k s
      → Result s' o
  Delivered-Result {k} s' o ne e d = elim d.behind [
    | inl b ↦ record { blocks = k; prefix = ap (client start) e ∙ b; whole = λ w. absurd (ne w) }
    | inr b ↦ record {
      blocks = k + 1;
      prefix = ap (client start) e ∙ b;
      whole = λ w. absurd (ne w);
    }
  ]

  -- The packet has been sent once more.
  once-Result :
      {k : ℕ} {s : Session} (s' : Session) (o : Outcome)
      → o ≢ completed
      → s'.sent ≡ sent_once s
      → Delivered k s
      → Result s' o
  once-Result {k} s' o ne e d = record {
    blocks = k + 1;
    prefix = ap (client start) e ∙ client-sent_once d;
    whole = λ w. absurd (ne w);
  }

  take_last :
      (k : ℕ)
      → length (datagram payload k) ≢ datagram_size
      → take (block_size * (k + 1)) payload ≡ payload
  take_last k h =
      take_of_le (block_size * (k + 1)) payload (omega (arith, length-datagram payload k))

  prepare-Delivered :
      {k : ℕ} {s s' : Session} (retries : ℕ)
      → Delivered k s
      → Same s s'
      → s'.sent ≡ sent_once s
      → Delivered (k + 1) (prepare retries s')
  unfolding prepare
  prepare-Delivered {k} {s} {s'} retries d same e = record {
    sends = prepare-Sends retries (k + 1) s' (Same-Ready d.sends same);
    behind = inl (ap (client start) e ∙ client-sent_once d);
  }

  rule : (retries : ℕ) → Rule retries P Q
  rule retries = record {
    at_end = λ n s (k, d). Delivered-Result s waiting (λ e. cc) refl d;
    at_stop = λ n s s' o (k, d) (same, e, _, ne). elim e [
      | inl x ↦ Delivered-Result s' o ne x d
      | inr x ↦ once-Result s' o ne x d
    ];
    at_retry = λ n s s' (k, d) (same, e) lt. (
      k,
      record {
        sends = Same-Sends d.sends same (s'.tries - 1);
        behind = inr (ap (client start) e ∙ client-sent_once d);
      },
    );
    at_exhausted =
        λ n s s' (k, d) (same, e) le. once-Result (record s' { tries = 0 }) exhausted (λ w. cc) e d;
    at_next = λ n s s' (k, d) (same, e, _) full. (k + 1, prepare-Delivered retries d same e);
    at_completed = λ n s s' (k, d) (same, e, _) last. record {
      blocks = k + 1;
      prefix = ap (client start) e ∙ client-sent_once d;
      whole = λ w.
          ap (λ c. c.got) (ap (client start) e ∙ client-sent_once d)
          ∙ take_last k (λ e'. last (ap length (same.packet_same ∙ d.sends.packet_is) ∙ e'));
    };
  }

  start-Delivered : (retries : ℕ) → Delivered 0 (prepare retries (fresh payload))
  unfolding prepare client
  start-Delivered retries = record {
    sends = prepare-Sends retries 0 (fresh payload) (fresh-Ready payload);
    behind = inl refl;
  }

-- Whatever the network does, a client that keeps the blocks in the order of their numbers has at
-- every moment of a transfer a prefix of the server's payload in whole blocks; where `handle` has
-- sent its last block and got its acknowledgment, the client has the payload.
pub handle-Result :
    (dialed : Bool) (retries : ℕ) (payload : Bytes) (script : List Attempt)
    → let (s, o) = handle dialed retries payload script in Result payload s o
unfolding handle
handle-Result false retries payload script = record {
  blocks = 0;
  prefix = unfold client in refl;
  whole = λ w. cc;
}
handle-Result true retries payload script = elim (Bool-cases (retries == 0)) [
  | inl z ↦ rw z (
      Delivered-Result payload (prepare retries (fresh payload)) exhausted (λ w. cc) refl
        (start-Delivered payload retries))
  | inr z ↦
      rw z
        (run_rule retries _ _ (rule payload retries) script 0 (length script) _ (omega arith)
          (0, start-Delivered payload retries)).holds
]
