-- ===== src/Chores/Store/Laws.antt =====
-- chapter12/homework.go: what the commands do to the stored chores.
use networking_in_go.Chores.Chore.{Chore, new_chores, mark}
use networking_in_go.Chores.Store.{
  Codec, Disk, StoreError, storage_failed, chore_index, decoded, load_file, load, write_file, flush,
  add_to, add, complete_at, complete_in, complete_number, complete, run, arg,
}
use networking_in_go.Go.Decimal.{atoi}
use networking_in_go.Go.Text.{to_lower}
use mathlib.Core.Option.{some-ne-none, some-injective}
use networking_in_go.Prelude.{
  ℕ, ◌-◌, ◌≤◌, Bool, true, false, List, ◌++◌, ◌≡◌, ◌≢◌, refl, sym, ap, ◌∙◌, arith, inl, inr,
  Option-cases, Option, none, some, map, Bytes, codes, equal, Result, ok, err, if◌then◌else◌,
  length, take_of_le, ℤ, pos, negsuc,
}

pub chore_index-some :
    (i : ℤ) (len : ℕ) {k : ℕ}
    → chore_index i len ≡ some k
    → (n : ℕ) × (i ≡ pos n) × (1 ≤ n) × (n ≤ len) × (k ≡ n - 1)
unfolding chore_index
chore_index-some (negsuc m) len h = cc
chore_index-some (pos n) len h = (n, refl, ground arith, ground arith, ground arith)

module _ (codec : Codec) where
  open codec use {marshal, unmarshal, unmarshal-marshal}

  -- A write that ended with no error can be loaded again.
  load-flush :
      (cs : List Chore) (d : Disk)
      → d.readable ≡ true
      → (flush codec cs d).0 ≡ none
      → load codec (flush codec cs d).1 ≡ ok cs
  unfolding flush write_file load load_file decoded
  load-flush cs d r h = elim (Option-cases (marshal cs)) [
    | inl e ↦ ground arith
    | inr (b, e) ↦ ground (arith, unmarshal-marshal cs b e, take_of_le d.room b)
  ]

  -- After an `add` that ended with no error the stored chores are those from before, in their order,
  -- and behind them the chores that the text names.
  pub load-add :
      (s : Bytes) (d : Disk) {cs : List Chore}
      → d.readable ≡ true
      → load codec d ≡ ok cs
      → (add codec s d).0 ≡ none
      → load codec (add codec s d).1 ≡ ok (cs ++ new_chores s)
  unfolding add add_to
  load-add s d {cs} r l h =
      rw (l, add_to) (load-flush (cs ++ new_chores s) d r (rw (l, add_to) at h))

  complete_at-none :
      (i : ℤ) (k : Option ℕ) (cs : List Chore) (d : Disk)
      → (complete_at codec i k cs d).0 ≡ none
      → (j : ℕ) × (k ≡ some j) × (complete_at codec i k cs d ≡ flush codec (mark cs j) d)
  unfolding complete_at
  complete_at-none i none cs d h = cc
  complete_at-none i (some j) cs d h = (j, refl, refl)

  complete_lem :
      (s : Bytes) (d : Disk) {cs : List Chore} {i : ℤ}
      → atoi s ≡ some i
      → load codec d ≡ ok cs
      → complete codec s d ≡ complete_at codec i (chore_index i (length cs)) cs d
  unfolding complete complete_number complete_in
  complete_lem s d {cs} {i} e l = rw (e, complete_number) (rw (l, complete_in))

  atoi_of_complete :
      (s : Bytes) (d : Disk) → (complete codec s d).0 ≡ none → (i : ℤ) × (atoi s ≡ some i)
  unfolding complete complete_number
  atoi_of_complete s d h = elim (Option-cases (atoi s)) [
    | inl e ↦ absurd (cc (rw (e, complete_number) at h))
    | inr x ↦ x
  ]

  -- After a `complete` that ended with no error the text was a number from 1 to the number of stored
  -- chores, and the stored chores are as before, with that one done.
  pub load-complete :
      (s : Bytes) (d : Disk) {cs : List Chore}
      → d.readable ≡ true
      → load codec d ≡ ok cs
      → (complete codec s d).0 ≡ none
      → (n : ℕ) × (atoi s ≡ some (pos n))
        × (1 ≤ n)
        × (n ≤ length cs)
        × (load codec (complete codec s d).1 ≡ ok (mark cs (n - 1)))
  load-complete s d {cs} r l h =
      let (i, e) = atoi_of_complete s d h in
      let step = complete_lem s d e l in
      let (k, some_k, flushed) =
        complete_at-none i (chore_index i (length cs)) cs d (rw step at h) in
      let (n, i_n, pos_n, le_n, k_n) = chore_index-some i (length cs) some_k in
      (
        n,
        e ∙ ap some i_n,
        pos_n,
        le_n,
        rw (step, flushed)
            (load-flush (mark cs k) d r (rw (step, flushed) at h) ∙ ap (λ j. ok (mark cs j)) k_n),
      )

  -- Every error but one of the storage package leaves the data file alone.
  abbrev Spares : Disk → Option StoreError × Disk → Type 0
  Spares d (e, d') = (e ≢ none) → (e ≢ some storage_failed) → d' ≡ d

  flush-Spares : (cs : List Chore) (d : Disk) → Spares d (flush codec cs d)
  unfolding flush write_file
  flush-Spares cs d = ground arith

  add_to-Spares :
      (s : Bytes) (d : Disk) (r : Result StoreError (List Chore)) → Spares d (add_to codec s d r)
  unfolding add_to
  add_to-Spares s d (err e) = λ a b. refl
  add_to-Spares s d (ok cs) = flush-Spares (cs ++ new_chores s) d

  complete_at-Spares :
      (i : ℤ) (k : Option ℕ) (cs : List Chore) (d : Disk) → Spares d (complete_at codec i k cs d)
  unfolding complete_at
  complete_at-Spares i none cs d = λ a b. refl
  complete_at-Spares i (some k) cs d = flush-Spares (mark cs k) d

  complete_in-Spares :
      (i : ℤ) (d : Disk) (r : Result StoreError (List Chore)) → Spares d (complete_in codec i d r)
  unfolding complete_in
  complete_in-Spares i d (err e) = λ a b. refl
  complete_in-Spares i d (ok cs) = complete_at-Spares i (chore_index i (length cs)) cs d

  complete_number-Spares : (i : Option ℤ) (d : Disk) → Spares d (complete_number codec i d)
  unfolding complete_number
  complete_number-Spares none d = λ a b. refl
  complete_number-Spares (some i) d = complete_in-Spares i d (load codec d)

  add-Spares : (s : Bytes) (d : Disk) → Spares d (add codec s d)
  unfolding add
  add-Spares s d = add_to-Spares s d (load codec d)

  complete-Spares : (s : Bytes) (d : Disk) → Spares d (complete codec s d)
  unfolding complete
  complete-Spares s d = complete_number-Spares (atoi s) d

  either-Spares :
      (b : Bool) (d : Disk) {x y : Option StoreError × Disk}
      → Spares d x
      → Spares d y
      → Spares d (if b then x else y)
  either-Spares true d hx hy = hx
  either-Spares false d hx hy = hy

  -- A command that ends in an error leaves the data file as it was, unless the error is the storage
  -- package's.
  pub run_error :
      (args : List Bytes) (d : Disk) {e : StoreError}
      → (run codec args d).0 ≡ some e
      → e ≢ storage_failed
      → (run codec args d).1 ≡ d
  unfolding run
  run_error args d {e} h ne =
      let command = map to_lower (arg 0 args) in
      either-Spares (equal command (codes "add")) d (add-Spares _ d)
        (either-Spares (equal command (codes "complete")) d (complete-Spares _ d) (λ a b. refl))
        (λ n. some-ne-none e (sym h ∙ n)) (λ n. ne (some-injective e storage_failed (sym h ∙ n)))
