-- ===== src/Tftp/Handler/Runs.antt =====
-- chapter6/server.go: how often `handle` sends each block.
use networking_in_go.Prelude.{
  ℕ, zero, suc, ◌+◌, ◌-◌, ◌≤◌, ◌<◌, List, [], ◌∷◌, ◌++◌, ◌≡◌, refl, ap, sym, ◌∙◌, inl, inr, arith,
  Bytes, ◌==◌, length, length-append, true, false, All, replicate, append_assoc, append-nil,
  All-snoc, ap₂, subst,
}
use networking_in_go.Tftp.Handler.Bounds.{blocks_of, full_block}
use networking_in_go.Tftp.Handler.Invariant.{
  Sends, fresh-Ready, prepare-Sends, sent_once, Same, Same-Sends, Same-Ready, datagram,
}
use networking_in_go.Tftp.Handler.Rule.{Rule, run_rule}
use networking_in_go.Tftp.Handler.{Attempt, Outcome, Session, prepare, fresh, handle}
use networking_in_go.Tftp.Packet.{datagram_size}

-- Each block in turn, from block `k` on, so many times.
pub runs : Bytes → ℕ → List ℕ → List Bytes
runs payload k [] = []
runs payload k (n ∷ ns) = replicate n (datagram payload k) ++ runs payload (k + 1) ns

-- What was sent is each block in turn, at most `retries` times, and no block behind the last.
pub record InRuns (payload : Bytes) (retries : ℕ) (sent : List Bytes) : Type 0 where
  pub times : List ℕ
  pub spelled : sent ≡ runs payload 0 times
  pub few : All (λ n. n ≤ retries) times
  pub in_range : length times ≤ blocks_of payload

runs-append :
    (payload : Bytes) (k m n : ℕ) (ns : List ℕ)
    → k + length ns ≡ m
    → runs payload k (ns ++ n ∷ []) ≡ runs payload k ns ++ replicate n (datagram payload m)
unfolding runs
runs-append payload k m n [] e =
    let e' : k ≡ m = omega arith in
    append-nil (replicate n (datagram payload k)) ∙ ap (λ i. replicate n (datagram payload i)) e'
runs-append payload k m n (i ∷ ns) e =
    ap (λ l. replicate i (datagram payload k) ++ l)
      (runs-append payload (k + 1) m n ns (omega arith))
    ∙ sym (append_assoc (replicate i (datagram payload k)) (runs payload (k + 1) ns) _)

replicate-snoc : {A : Type 0} (n : ℕ) (a : A) → replicate n a ++ a ∷ [] ≡ replicate (suc n) a
replicate-snoc zero a = refl
replicate-snoc (suc n) a = ap (λ l. a ∷ l) (replicate-snoc n a)

module _ (payload : Bytes) (retries : ℕ) where
  -- The blocks before block `index` were sent so often, and that one `count` times.
  record Turn (s : Session) : Type 0 where
    index : ℕ
    sends : Sends payload index s
    in_range : index < blocks_of payload
    past : List ℕ
    before : length past ≡ index
    few : All (λ n. n ≤ retries) past
    count : ℕ
    spelled : s.sent ≡ runs payload 0 past ++ replicate count (datagram payload index)
    tries_left : 1 ≤ s.tries
    spent : count + s.tries ≤ retries

  Turn-InRuns : (s : Session) → Turn s → InRuns payload retries s.sent
  Turn-InRuns s t = record {
    times = t.past ++ t.count ∷ [];
    spelled =
        t.spelled ∙ sym (runs-append payload 0 t.index t.count t.past (omega (arith, t.before)));
    few = All-snoc _ t.past t.count t.few (omega (arith, t.spent));
    in_range = omega (arith, length-append t.past (t.count ∷ []), t.before, t.in_range);
  }

  -- The packet has been sent once more.
  once :
      {s : Session} (t : Turn s)
      → sent_once s ≡ runs payload 0 t.past ++ replicate (suc t.count) (datagram payload t.index)
  once {s} t =
      ap₂ (λ l p. l ++ p ∷ []) t.spelled t.sends.packet_is
      ∙ append_assoc (runs payload 0 t.past) _ _
      ∙ ap (λ l. runs payload 0 t.past ++ l) (replicate-snoc t.count (datagram payload t.index))

  once-InRuns : (s : Session) → Turn s → InRuns payload retries (sent_once s)
  once-InRuns s t = record {
    times = t.past ++ suc t.count ∷ [];
    spelled =
        once t ∙ sym (runs-append payload 0 t.index (suc t.count) t.past (omega (arith, t.before)));
    few = All-snoc _ t.past (suc t.count) t.few (omega (arith, t.spent, t.tries_left));
    in_range = omega (arith, length-append t.past (suc t.count ∷ []), t.before, t.in_range);
  }

  prepare-Turn :
      1 ≤ retries
      → {s : Session} (s' : Session) → Turn s
      → Same s s'
      → s'.sent ≡ sent_once s
      → length s'.packet ≡ datagram_size
      → Turn (prepare retries s')
  unfolding prepare once-InRuns
  prepare-Turn pos {s} s' t same e full =
      let r = once-InRuns s t in
      record {
        index = t.index + 1;
        sends = prepare-Sends retries (t.index + 1) s' (Same-Ready t.sends same);
        in_range =
            full_block payload retries t.index
              (ap length (sym (same.packet_same ∙ t.sends.packet_is)) ∙ full);
        past = t.past ++ suc t.count ∷ [];
        before = omega (arith, length-append t.past (suc t.count ∷ []), t.before);
        few = r.few;
        count = 0;
        spelled = e ∙ r.spelled ∙ sym (append-nil (runs payload 0 (t.past ++ suc t.count ∷ [])));
        tries_left = pos;
        spent = omega arith;
      }

  abbrev Q : ℕ → Session → Outcome → Type 0
  Q n s o = InRuns payload retries s.sent

  rule : 1 ≤ retries → Rule retries (λ n s. Turn s) Q
  rule pos = record {
    at_end = λ n s t. Turn-InRuns s t;
    at_stop = λ n s s' o t (same, e, ne, _). elim e [
      | inl x ↦ subst (InRuns payload retries) (sym x) (Turn-InRuns s t)
      | inr x ↦ subst (InRuns payload retries) (sym x) (once-InRuns s t)
    ];
    at_retry = λ n s s' t (same, e) lt. record {
      index = t.index;
      sends = Same-Sends t.sends same (s'.tries - 1);
      in_range = t.in_range;
      past = t.past;
      before = t.before;
      few = t.few;
      count = suc t.count;
      spelled = e ∙ once t;
      tries_left = omega arith;
      spent = omega (arith, t.spent, same.tries_same);
    };
    at_exhausted =
        λ n s s' t (same, e) le. subst (InRuns payload retries) (sym e) (once-InRuns s t);
    at_next = λ n s s' t (same, e, _) full. prepare-Turn pos s' t same e full;
    at_completed =
        λ n s s' t (same, e, _) last. subst (InRuns payload retries) (sym e) (once-InRuns s t);
  }

  start-Turn : 1 ≤ retries → Turn (prepare retries (fresh payload))
  unfolding prepare runs
  start-Turn pos = record {
    index = 0;
    sends = prepare-Sends retries 0 (fresh payload) (fresh-Ready payload);
    in_range = omega arith;
    past = [];
    before = refl;
    few = tt;
    count = 0;
    spelled = refl;
    tries_left = pos;
    spent = omega arith;
  }

-- `handle` sends the blocks in turn, each of them at most as often as it may retry, and none behind
-- the short last one, whatever the network does.
pub handle-InRuns :
    (retries : ℕ) (payload : Bytes) (script : List Attempt)
    → 1 ≤ retries
    → InRuns payload retries (handle true retries payload script).0.sent
unfolding handle
handle-InRuns retries payload script pos =
    let e : (retries == 0) ≡ false = ground arith in
    rw e (
      (run_rule retries (λ n s. Turn payload retries s) (Q payload retries)
        (rule payload retries pos) script 0 (length script) _ (omega arith)
        (start-Turn payload retries pos)).holds)
