-- ===== src/Tftp/Handler/Bounds.antt =====
-- chapter6/server.go: how often `handle` sends, and that it returns.
use networking_in_go.Prelude.{
  ℕ, suc, ◌+◌, ◌-◌, ◌*◌, ◌/◌, ◌≤◌, ◌<◌, List, [], ◌∷◌, ◌≡◌, ◌≢◌, refl, ap, sym, ◌∙◌, ◌⊎◌, inl, inr,
  arith, Bytes, ◌==◌, length, length-append, true, false,
}
use networking_in_go.Tftp.Handler.Invariant.{
  Sends, fresh-Ready, prepare-Sends, sent_once, Same, Same-Sends, Same-Ready, length-datagram,
  datagram,
}
use networking_in_go.Tftp.Handler.Rule.{Rule, run_rule, Ends}
use networking_in_go.Tftp.Handler.{
  Attempt, Outcome, waiting, completed, exhausted, Session, prepare, fresh, handle,
}
use networking_in_go.Tftp.Packet.{datagram_size, block_size}

-- The blocks of a payload: the last one is not full, and may be empty.
abbrev pub blocks_of : Bytes → ℕ
blocks_of payload = length payload / block_size + 1

module _ (payload : Bytes) (retries : ℕ) where
  -- Block `k` is being sent, and the tries that are left bound what was sent.
  record Budget (n : ℕ) (s : Session) : Type 0 where
    index : ℕ
    sends : Sends payload index s
    in_range : index < blocks_of payload
    tries_left : 1 ≤ s.tries
    counted : length s.sent ≡ n
    spent : n + s.tries ≤ retries * (index + 1)

  abbrev Sent : ℕ → Session → Outcome → Type 0
  Sent n s o =
      (n ≤ retries * blocks_of payload)
      × (length s.sent ≤ n)
      × (o ≡ waiting → n < retries * blocks_of payload)

  length-sent_once : (s : Session) → length (sent_once s) ≡ suc (length s.sent)
  length-sent_once s = omega (arith, length-append s.sent (s.packet ∷ []))

  within :
      (n k t : ℕ)
      → k < blocks_of payload
      → n + t ≤ retries * (k + 1)
      → n + t ≤ retries * blocks_of payload
  within n k t lt h = grind arith

  pub full_block : (k : ℕ) → length (datagram payload k) ≡ datagram_size → k + 1 < blocks_of payload
  full_block k h = omega (arith, length-datagram payload k)

  -- The next block has all its tries before it.
  refill : (n k : ℕ) → n ≤ retries * (k + 1) → n + retries ≤ retries * (k + 1 + 1)
  refill n k h = grind arith

  ended :
      {n : ℕ} {s : Session} (s' : Session) (o : Outcome)
      → Budget n s
      → (s'.sent ≡ s.sent) ⊎ (s'.sent ≡ sent_once s)
      → o ≢ waiting
      → Sent (suc n) s' o
  ended {n} {s} s' o b e ne = (
    omega (arith, within n b.index s.tries b.in_range b.spent, b.tries_left),
    elim e [
      | inl x ↦ omega (arith, ap length x, b.counted)
      | inr x ↦ omega (arith, ap length x, length-sent_once s, b.counted)
    ],
    λ w. absurd (ne w),
  )

  prepare-Budget :
      1 ≤ retries
      → {n : ℕ} {s : Session} (s' : Session) → Budget n s
      → Same s s'
      → s'.sent ≡ sent_once s
      → length s'.packet ≡ datagram_size
      → Budget (suc n) (prepare retries s')
  unfolding prepare
  prepare-Budget pos {n} {s} s' b same e full = record {
    index = b.index + 1;
    sends = prepare-Sends retries (b.index + 1) s' (Same-Ready b.sends same);
    in_range = full_block b.index (ap length (sym (same.packet_same ∙ b.sends.packet_is)) ∙ full);
    tries_left = pos;
    counted = ap length e ∙ length-sent_once s ∙ ap suc b.counted;
    spent = refill (suc n) b.index (omega (arith, b.spent, b.tries_left));
  }

  rule : 1 ≤ retries → Rule retries Budget Sent
  rule pos = record {
    at_end = λ n s b.
        let fits = within n b.index s.tries b.in_range b.spent in
        (omega (arith, fits), omega (arith, b.counted), λ _. omega (arith, fits, b.tries_left));
    at_stop = λ n s s' o b (same, e, ne, _). ended s' o b e ne;
    at_retry = λ n s s' b (same, e) lt. record {
      index = b.index;
      sends = Same-Sends b.sends same (s'.tries - 1);
      in_range = b.in_range;
      tries_left = omega arith;
      counted = ap length e ∙ length-sent_once s ∙ ap suc b.counted;
      spent = omega (arith, b.spent, same.tries_same);
    };
    at_exhausted =
        λ n s s' b (same, e) le. ended (record s' { tries = 0 }) exhausted b (inr e) (λ w. cc);
    at_next = λ n s s' b (same, e, _) full. prepare-Budget pos s' b same e full;
    at_completed = λ n s s' b (same, e, _) last. ended s' completed b (inr e) (λ w. cc);
  }

  start-Budget : 1 ≤ retries → Budget 0 (prepare retries (fresh payload))
  unfolding prepare
  start-Budget pos = record {
    index = 0;
    sends = prepare-Sends retries 0 (fresh payload) (fresh-Ready payload);
    in_range = omega arith;
    tries_left = pos;
    counted = refl;
    spent = omega arith;
  }

  handle-Ends :
      (script : List Attempt)
      → 1 ≤ retries
      → Ends Sent (length script) (handle true retries payload script)
  unfolding handle
  handle-Ends script pos =
      let e : (retries == 0) ≡ false = ground arith in
      rw e (
        run_rule retries Budget Sent (rule pos) script 0 (length script) _ (omega arith)
          (start-Budget pos))

-- `handle` returns: once each of its sends has had its answer or its time-out, as many as retries
-- times blocks at most, it waits for nothing more.
pub handle_returns :
    (retries : ℕ) (payload : Bytes) (script : List Attempt)
    → 1 ≤ retries
    → retries * blocks_of payload ≤ length script
    → (handle true retries payload script).1 ≢ waiting
handle_returns retries payload script pos enough w =
    let ends = handle-Ends payload retries script pos in
    absurd (omega (arith, ends.all_used w, ends.holds.2 w))
