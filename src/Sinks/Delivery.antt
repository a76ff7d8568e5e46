-- ===== src/Sinks/Delivery.antt =====
-- chapter13/multi.go: every writer gets its part, whatever the others do.
use networking_in_go.Sinks.{
  Sink, Argument, writer, sustained, Store, write_sink, update, write_all, sustained_multi_writer,
}
use networking_in_go.Prelude.{
  [], Bytes, if◌then◌else◌, arith, All, ◌∷◌, true, false, refl, List, ◌≡◌, Bool, ℕ, ◌++◌, ◌+◌, ap,
  ◌∙◌, ◌≢◌, [], ap₂,
}

update_other : (store : Store) (s : Sink) (i j : ℕ) → i ≢ j → update j s store i ≡ store i
unfolding update
update_other store s i j h = ground arith

update_same : (store : Store) (s : Sink) (i : ℕ) → update i s store i ≡ s
unfolding update
update_same store s i = ground arith

-- The writer `i` is none of these.
abbrev pub Absent : ℕ → List ℕ → Type 0
Absent i is = All (λ j. i ≢ j) is

pub write_all-Absent :
    (is : List ℕ) (p : Bytes) (store : Store) (i : ℕ)
    → Absent i is
    → (write_all is p store).2 i ≡ store i
unfolding write_all
write_all-Absent [] p store i h = refl
write_all-Absent (j ∷ is) p store i h =
    write_all-Absent is p (update j (write_sink p (store j)).2 store) i h.1
    ∙ update_other store (write_sink p (store j)).2 i j h.0

-- A writer that stands once among the writers has, after a write, what it takes of the bytes by itself:
-- the writers before it, and whether they fail, make no difference.
pub write_all_reaches :
    (before after : List ℕ) (p : Bytes) (store : Store) (i : ℕ)
    → Absent i before
    → Absent i after
    → (write_all (before ++ i ∷ after) p store).2 i ≡ (write_sink p (store i)).2
unfolding write_all
write_all_reaches [] after p store i h k =
    write_all-Absent after p (update i (write_sink p (store i)).2 store) i k
    ∙ update_same store (write_sink p (store i)).2 i
write_all_reaches (j ∷ before) after p store i h k =
    write_all_reaches before after p (update j (write_sink p (store j)).2 store) i h.1 k
    ∙ ap (λ s. (write_sink p s).2) (update_other store (write_sink p (store j)).2 i j h.0)

-- What the arguments stand for: writing to each in turn.
pub write_each : List Argument → Bytes → Store → ℕ × List ℕ × Store
write_each [] p store = (0, [], store)
write_each (writer i ∷ ws) p store =
    let (n, errors, store') = write_all (i ∷ []) p store in
    let (m, more, store'') = write_each ws p store' in (n + m, errors ++ more, store'')
write_each (sustained is ∷ ws) p store =
    let (n, errors, store') = write_all is p store in
    let (m, more, store'') = write_each ws p store' in (n + m, errors ++ more, store'')

errors_append :
    (b : Bool) (i : ℕ) (xs ys : List ℕ)
    → (if b then i ∷ (xs ++ ys) else xs ++ ys) ≡ (if b then i ∷ xs else xs) ++ ys
errors_append true i xs ys = refl
errors_append false i xs ys = refl

write_all-append :
    (is js : List ℕ) (p : Bytes) (store : Store)
    → let (n, errors, store') = write_all is p store in
      let (m, more, store'') = write_all js p store' in
      write_all (is ++ js) p store ≡ (n + m, errors ++ more, store'')
unfolding write_all
write_all-append [] js p store =
    let sum : (write_all js p store).0 ≡ 0 + (write_all js p store).0 = omega arith in
    ap (λ n. (n, (write_all js p store).1, (write_all js p store).2)) sum
write_all-append (i ∷ is) js p store =
    let (k, failed, s) = write_sink p (store i) in
    let store₁ = update i s store in
    let (n, errors, store') = write_all is p store₁ in
    let (m, more, store'') = write_all js p store' in
    let sum : k + (n + m) ≡ (k + n) + m = omega arith in
    ap (λ (r : ℕ × List ℕ × Store). (k + r.0, if failed then i ∷ r.1 else r.1, r.2))
      (write_all-append is js p store₁)
    ∙ ap₂ (λ a b. (a, b, store'')) sum (errors_append failed i errors more)

abbrev plus : ℕ × List ℕ × Store → ℕ × List ℕ × Store → ℕ × List ℕ × Store
plus a r = (a.0 + r.0, a.1 ++ r.1, r.2)

-- A sustained writer made of others writes the same to the same writers, with the same count and errors,
-- as writing to each of its arguments in turn.
pub write_all-sustained_multi_writer :
    (ws : List Argument) (p : Bytes) (store : Store)
    → write_all (sustained_multi_writer ws) p store ≡ write_each ws p store
unfolding write_each sustained_multi_writer write_all
write_all-sustained_multi_writer [] p store = refl
write_all-sustained_multi_writer (writer i ∷ ws) p store =
    write_all-append (i ∷ []) (sustained_multi_writer ws) p store
    ∙ ap (plus (write_all (i ∷ []) p store))
        (write_all-sustained_multi_writer ws p (write_all (i ∷ []) p store).2)
write_all-sustained_multi_writer (sustained is ∷ ws) p store =
    write_all-append is (sustained_multi_writer ws) p store
    ∙ ap (plus (write_all is p store))
        (write_all-sustained_multi_writer ws p (write_all is p store).2)
