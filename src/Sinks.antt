-- ===== src/Sinks.antt =====
-- chapter13/multi.go: sustainedMultiWriter, which goes on to the next writer after an error.
pub mod Delivery
pub mod Levels
pub mod Errors
pub mod Example
use networking_in_go.Prelude.{
  [], Bytes, length, take, if◌then◌else◌, ◌==◌, ltb, none, some, ◌∷◌, true, false, refl, inl, inr,
  Option, List, ◌≡◌, Bool, ℕ, ◌++◌, ◌+◌, ◌-◌, ◌≤◌, ◌<◌, zero, suc, ap, sym, ◌∙◌,
}

-- What a writer has taken, and how much more it takes before it fails.
pub record Sink : Type 0 where
  pub taken : Bytes
  pub room : ℕ

-- An argument: a writer by its place in the store, or a sustained writer with those of its own.
pub data Argument : Type 0 where
  writer : ℕ → Argument
  sustained : List ℕ → Argument

-- The writers that exist.
abbrev pub Store : Type 0
Store = ℕ → Sink

-- `w.Write(p)`: how much was taken, and whether that was an error.
unfoldable pub write_sink : Bytes → Sink → ℕ × Bool × Sink
write_sink p s =
    let got = take s.room p in
    (
      length got,
      ltb s.room (length p),
      record { taken = s.taken ++ got; room = s.room - length got },
    )

unfoldable pub update : ℕ → Sink → Store → Store
update i s store j = if j == i then s else store j

-- The loop of `Write`: the sum of the counts, the errors in their order by writer, and the store.
unfoldable pub write_all : List ℕ → Bytes → Store → ℕ × List ℕ × Store
unfolding update write_sink
write_all [] p store = (0, [], store)
write_all (i ∷ is) p store =
    let (n, failed, s) = write_sink p (store i) in
    let (m, errors, store') = write_all is p (update i s store) in
    (n + m, if failed then i ∷ errors else errors, store')

-- The loop of `SustainedMultiWriter`: the writers of a sustained one are taken over.
unfoldable pub sustained_multi_writer : List Argument → List ℕ
sustained_multi_writer [] = []
sustained_multi_writer (sustained is ∷ ws) = is ++ sustained_multi_writer ws
sustained_multi_writer (writer i ∷ ws) = i ∷ sustained_multi_writer ws

-- What is documented of go.uber.org/multierr, a parameter: Append puts errors together, of which Errors gives the
-- list; no error is nil.
pub record Multierr (E : Type 0) : Type 0 where
  pub append : Option E → Option E → Option E
  pub errors : Option E → List E
  pub errors_none : errors none ≡ []
  pub errors-append : (a b : Option E) → errors (append a b) ≡ errors a ++ errors b
  pub errors_nil : (e : Option E) → errors e ≡ [] → e ≡ none

module _ {E : Type 0} (multierr : Multierr E) (fault : ℕ → E) where
  -- The loop of `Write`: the count and the error so far; `fault` is the error of a writer that fails.
  unfoldable pub write_loop : List ℕ → Bytes → ℕ → Option E → Store → ℕ × Option E × Store
  unfolding write_sink update
  write_loop [] p n e store = (n, e, store)
  write_loop (w ∷ ws) p n e store =
      let (i, failed, s) = write_sink p (store w) in
      write_loop ws p (n + i) (multierr.append e (if failed then some (fault w) else none))
        (update w s store)

  unfoldable pub write : List ℕ → Bytes → Store → ℕ × Option E × Store
  unfolding write_loop
  write ws p store = write_loop ws p 0 none store
