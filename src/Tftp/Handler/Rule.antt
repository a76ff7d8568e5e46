-- ===== src/Tftp/Handler/Rule.antt =====
-- chapter6/server.go: the rule by which the properties of the loops of `handle` are proved.
use networking_in_go.Prelude.{
  ℕ, suc, Bool-cases, ◌+◌, ◌-◌, ◌≤◌, ◌<◌, [], ◌∷◌, List, ◌≡◌, ◌≢◌, refl, inl, inr, arith, ◌==◌,
  length,
}
use networking_in_go.Tftp.Handler.Invariant.{Keeps, attempt-Keeps}
use networking_in_go.Tftp.Handler.{
  Attempt, Outcome, waiting, completed, exhausted, Session, Round, retry, next, stop, attempt,
  prepare, run,
}
use networking_in_go.Tftp.Packet.{datagram_size}

-- The rule for the loops. `P n s` holds after `n` rounds, where the session `s` is about to write;
-- `Q n s o` holds where `handle` returns or the attempts end.
pub record Rule (retries : ℕ) (P : ℕ → Session → Type 0) (Q : ℕ → Session → Outcome → Type 0)
    : Type 0 where
  pub at_end : (n : ℕ) (s : Session) → P n s → Q n s waiting
  pub at_stop :
      (n : ℕ) (s s' : Session) (o : Outcome) → P n s → Keeps s (stop o s') → Q (suc n) s' o
  pub at_retry :
      (n : ℕ) (s s' : Session)
      → P n s
      → Keeps s (retry s')
      → 1 < s'.tries
      → P (suc n) (record s' { tries = s'.tries - 1 })
  pub at_exhausted :
      (n : ℕ) (s s' : Session)
      → P n s
      → Keeps s (retry s')
      → s'.tries ≤ 1
      → Q (suc n) (record s' { tries = 0 }) exhausted
  pub at_next :
      (n : ℕ) (s s' : Session)
      → P n s
      → Keeps s (next s')
      → length s'.packet ≡ datagram_size
      → P (suc n) (prepare retries s')
  pub at_completed :
      (n : ℕ) (s s' : Session)
      → P n s
      → Keeps s (next s')
      → length s'.packet ≢ datagram_size
      → Q (suc n) s' completed

-- The rounds made, and what holds then. Where the network has not answered, every attempt was used.
pub record Ends (Q : ℕ → Session → Outcome → Type 0) (most : ℕ) (r : Session × Outcome)
    : Type 0 where
  pub rounds : ℕ
  pub rounds_le : rounds ≤ most
  pub all_used : r.1 ≡ waiting → rounds ≡ most
  pub holds : Q rounds r.0 r.1

module _ (retries : ℕ) (P : ℕ → Session → Type 0) (Q : ℕ → Session → Outcome → Type 0)
    (rule : Rule retries P Q) where
  pub run_rule :
      (script : List Attempt) (n m : ℕ) (s : Session)
      → n + length script ≡ m
      → P n s
      → Ends Q m (run retries s script)
  unfolding run
  run_rule [] n m s e h = record {
    rounds = n;
    rounds_le = omega arith;
    all_used = λ _. omega arith;
    holds = rule.at_end n s h;
  }
  run_rule (a ∷ rest) n m s e h = go (attempt s a) refl (attempt-Keeps s a) (run_rule rest)
    where
      finish : (t : Session) (o : Outcome) → o ≢ waiting → Q (suc n) t o → Ends Q m (t, o)
      finish t o ne q = record {
        rounds = suc n;
        rounds_le = omega arith;
        all_used = λ w. absurd (ne w);
        holds = q;
      }

      go :
          (r : Round)
          → attempt s a ≡ r
          → Keeps s r
          → ((n' m' : ℕ) (t : Session)
              → n' + length rest ≡ m'
              → P n' t
              → Ends Q m' (run retries t rest))
          → Ends Q m (run retries s (a ∷ rest))
      go (stop o t) q k ih = rw (q, run) (finish t o k.2 (rule.at_stop n s t o h k))
      go (retry t) q k ih = elim (Bool-cases (t.tries - 1 == 0)) [
        | inl z ↦
            rw (q, run)
              (rw z (finish _ exhausted (cc) (rule.at_exhausted n s t h k (ground arith))))
        | inr z ↦
            rw (q, run)
              (rw z (ih (suc n) m _ (omega arith) (rule.at_retry n s t h k (ground arith))))
      ]
      go (next t) q k ih = elim (Bool-cases (length t.packet == datagram_size)) [
        | inl z ↦
            rw (q, run)
              (rw z (ih (suc n) m _ (omega arith) (rule.at_next n s t h k (ground arith))))
        | inr z ↦
            rw (q, run)
              (rw z (finish _ completed (cc) (rule.at_completed n s t h k (ground arith))))
      ]
