-- ===== src/Sinks/Errors.antt =====
-- chapter13/multi.go: the count and the error of a write.
use networking_in_go.Sinks.{Store, Multierr, write_sink, update, write_all, write_loop, write}
use networking_in_go.Prelude.{
  ℕ, ◌+◌, Bytes, Bool, true, false, List, [], ◌∷◌, ◌++◌, map, Option, none, some, if◌then◌else◌,
  ◌≡◌, refl, ap, sym, ◌∙◌, append_assoc, append-nil, arith, ◌↔◌,
}

module _ {E : Type 0} (multierr : Multierr E) (fault : ℕ → E)
    (single : (w : ℕ) → multierr.errors (some (fault w)) ≡ fault w ∷ []) where
  one_error :
      (failed : Bool) (w : ℕ) (ws : List ℕ)
      → multierr.errors (if failed then some (fault w) else none) ++ map fault ws
        ≡ map fault (if failed then w ∷ ws else ws)
  one_error true w ws = ap (λ es. es ++ map fault ws) (single w)
  one_error false w ws = ap (λ es. es ++ map fault ws) multierr.errors_none

  write_loop_lem :
      (ws : List ℕ) (p : Bytes) (n : ℕ) (e : Option E) (store : Store)
      → let (m, err, store') = write_loop multierr fault ws p n e store in
        let (k, failed, store'') = write_all ws p store in
        (m ≡ n + k)
        × (multierr.errors err ≡ multierr.errors e ++ map fault failed)
        × (store' ≡ store'')
  unfolding write_loop write_all
  write_loop_lem [] p n e store = (omega arith, sym (append-nil (multierr.errors e)), refl)
  write_loop_lem (w ∷ ws) p n e store =
      let (i, failed, s) = write_sink p (store w) in
      let one : Option E = if failed then some (fault w) else none in
      let rest = (write_all ws p (update w s store)).1 in
      let (hn, he, hs) = write_loop_lem ws p (n + i) (multierr.append e one) (update w s store) in
      (
        hn ∙ (omega arith),
        he
            ∙ ap (λ es. es ++ map fault rest) (multierr.errors-append e one)
            ∙ append_assoc (multierr.errors e) (multierr.errors one) (map fault rest)
            ∙ ap (λ es. multierr.errors e ++ es) (one_error failed w rest),
        hs,
      )

  no_failed : (ws : List ℕ) → map fault ws ≡ [] → ws ≡ []
  no_failed [] h = refl
  no_failed (w ∷ ws) h = cc

  -- `Write` of a sustained writer counts all bytes that its writers take, each of them by itself,
  -- and its error has the errors of those that fail, in their order: it is nil exactly if none
  -- fails. The package multierr behaves as documented, and the error of a writer is a single one.
  pub write-write_all :
      (ws : List ℕ) (p : Bytes) (store : Store)
      → let (n, e, store') = write multierr fault ws p store in
        let (k, failed, store'') = write_all ws p store in
        (n ≡ k)
        × (multierr.errors e ≡ map fault failed)
        × (store' ≡ store'')
        × ((e ≡ none) ↔ (failed ≡ []))
  unfolding write
  write-write_all ws p store =
      let (hn, he, hs) = write_loop_lem ws p 0 none store in
      let same = he ∙ ap (λ es. es ++ map fault (write_all ws p store).1) multierr.errors_none in
      (
        hn ∙ (omega arith),
        same,
        hs,
        (
          λ h. no_failed _ (sym same ∙ ap multierr.errors h ∙ multierr.errors_none),
          λ h. multierr.errors_nil _ (same ∙ ap (map fault) h),
        ),
      )
