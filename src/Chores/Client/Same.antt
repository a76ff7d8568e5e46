-- ===== src/Chores/Client/Same.antt =====
-- chapter12/client/client.go against chapter12/homework.go: the same commands on the same chores.
use mathlib.Core.List.{append-nil}
use networking_in_go.Chores.Chore.{Chore, new_chores, mark}
use networking_in_go.Chores.Client as Client
use networking_in_go.Chores.Client.{
  Answer, answered, no_call, add_chores, show, failed, atoi, nothing_to_do, table,
}
use networking_in_go.Chores.Client.Remote.{local, seen, complete-local, chore_index_pos}
use networking_in_go.Chores.Robot as Robot
use networking_in_go.Chores.Robot.{Rosie, Response, success, add_request, serve, list_slice}
use networking_in_go.Chores.Robot.Refinement.{contents, view-serve, serve_spec}
use networking_in_go.Chores.Store as Store
use networking_in_go.Chores.Store.{Codec, Disk, StoreError, Listing, load, arg, caught_up}
use networking_in_go.Chores.Store.Laws.{load-add, load-complete}
use networking_in_go.Go.Fields.{join}
use networking_in_go.Go.Text.{to_lower}
use networking_in_go.Prelude.{
  ok, Bytes, codes, equal, if◌then◌else◌, map, drop, length, pos, arith, none, some, [], ◌∷◌, true,
  false, Option, List, ◌≡◌, Bool, ℕ, ◌++◌, ◌-◌, ◌≤◌, ◌<◌, ap, sym, ◌∙◌, refl, ok_injective,
}

pub add_chores-contents :
    (cs : List Chore) (r : Rosie)
    → (contents (add_chores cs r).0 ≡ contents r ++ cs) × (failed (add_chores cs r).1 ≡ false)
unfolding add_chores Client.answered_by failed serve serve_spec
add_chores-contents [] r = (sym (append-nil (contents r)), refl)
add_chores-contents (c ∷ cs) r =
    (ap (λ (p : List Chore × Response). p.0) (view-serve r.chores (add_request (c ∷ cs))), refl)

complete-contents :
    (s : Bytes) (r : Rosie) (n : ℕ)
    → atoi s ≡ some (pos n)
    → 1 ≤ n
    → n ≤ length (contents r)
    → length (contents r) < 2147483648
    → seen (Client.complete s r) ≡ (mark (contents r) (n - 1), answered success)
unfolding local
complete-contents s r n e h k small =
    complete-local s r e (omega arith) ∙ rw (chore_index_pos n (length (contents r)) h k) refl

pub list-contents :
    (o : Option (List Chore))
    → let (r', l) = Client.list (record { chores = o }) in
      (l ≡ show (contents (record { chores = o })))
      × (contents r' ≡ contents (record { chores = o }))
unfolding Client.list Client.listing serve Robot.list list_slice
list-contents none = (refl, refl)
list-contents (some cs) = (refl, refl)

-- What the client prints where the program on the data file prints this: the same table, and other words for
-- no chores.
unfoldable pub client_words : Listing → Listing
client_words caught_up = nothing_to_do
client_words nothing_to_do = nothing_to_do
client_words (table rows) = table rows

-- What the program on the data file prints of a list.
file_words : List Chore → Listing
file_words [] = caught_up
file_words (c ∷ cs) = table (Store.rows_from 0 (c ∷ cs))

show-client_words : (cs : List Chore) → show cs ≡ client_words (file_words cs)
unfolding show client_words file_words
show-client_words [] = refl
show-client_words (c ∷ cs) = refl

module _ (codec : Codec) where
  -- After a command that ended with no error on the data file, the stored chores are those of the service,
  -- where the command ended with no error either.
  abbrev Agree : Option StoreError × Disk → Rosie × Answer → Type 0
  Agree p q = (p.0 ≡ none) → (load codec p.1 ≡ ok (contents q.0)) × (failed q.1 ≡ false)

  either-Agree :
      (b : Bool) (p p' : Option StoreError × Disk) (q q' : Rosie × Answer)
      → Agree p q
      → Agree p' q'
      → Agree (if b then p else p') (if b then q else q')
  either-Agree true p p' q q' h k = h
  either-Agree false p p' q q' h k = k

  module _ (d : Disk) (r : Rosie) (readable : d.readable ≡ true)
      (loaded : load codec d ≡ ok (contents r)) (small : length (contents r) < 2147483648) where
    add-Agree : (s : Bytes) → Agree (Store.add codec s d) (Client.add s r)
    unfolding Client.add
    add-Agree s h =
        let (e, f) = add_chores-contents (new_chores s) r in
        (load-add codec s d readable loaded h ∙ ap ok (sym e), f)

    complete-Agree : (s : Bytes) → Agree (Store.complete codec s d) (Client.complete s r)
    unfolding failed
    complete-Agree s h =
        let (n, e, lo, hi, l) = load-complete codec s d readable loaded h in
        let c = complete-contents s r n e lo hi small in
        (
          l ∙ ap (λ (p : List Chore × Answer). ok p.0) (sym c),
          ap (λ (p : List Chore × Answer). failed p.1) c,
        )

    run-Agree : (args : List Bytes) → Agree (Store.run codec args d) (Client.run args r)
    unfolding Store.run Client.run failed
    run-Agree args =
        either-Agree (equal (map to_lower (arg 0 args)) (codes "add")) _ _ _ _
          (add-Agree (join (drop 1 args) (codes " ")))
          (either-Agree (equal (map to_lower (arg 0 args)) (codes "complete")) _ _ _ _
            (complete-Agree (arg 1 args)) (λ e. (loaded, refl)))

  list_loaded :
      (d : Disk) (cs : List Chore) → load codec d ≡ ok cs → Store.list codec d ≡ ok (file_words cs)
  unfolding Store.list file_words
  list_loaded d [] e = rw (e, Store.list) refl
  list_loaded d (c ∷ cs) e = rw (e, Store.list) refl

  list_after-Agree :
      (p : Option StoreError) (d : Disk) (r : Rosie) (a : Answer) {l : Listing}
      → Agree (p, d) (r, a)
      → (Store.list_after codec (p, d)).0 ≡ ok l
      → ((Client.list_after (r, a)).1 ≡ some (client_words l))
        × (load codec (Store.list_after codec (p, d)).1
            ≡ ok (contents (Client.list_after (r, a)).0))
  unfolding Store.list_after Client.list_after
  list_after-Agree (some e) d r a h k = cc
  list_after-Agree none d r a {l} h k =
      let (loaded, fine) = h refl in
      let (e, f) = list-contents r.chores in
      let same = ok_injective (Store.list codec d) (list_loaded d (contents r) loaded) k in
      rw fine (
        ap some (e ∙ show-client_words (contents r) ∙ ap client_words same),
        loaded ∙ ap ok (sym f),
      )

  -- The program on the data file and the client of the service, called with the same arguments, behave
  -- alike where the chores are the same and fewer than 2 ^ 31: if the one prints a table, the other
  -- prints the same, if the one prints that all is done, the other prints its own words for it, and
  -- the chores are the same again.
  pub main-Store :
      (args : List Bytes) (d : Disk) (r : Rosie) {l : Listing}
      → d.readable ≡ true
      → load codec d ≡ ok (contents r)
      → length (contents r) < 2147483648
      → (Store.main codec args d).0 ≡ ok l
      → ((Client.main args r).1 ≡ some (client_words l))
        × (load codec (Store.main codec args d).1 ≡ ok (contents (Client.main args r).0))
  unfolding Store.main Client.main
  main-Store args d r readable loaded small h =
      list_after-Agree (Store.run codec args d).0 (Store.run codec args d).1 (Client.run args r).0
        (Client.run args r).1 (run-Agree d r readable loaded small args) h
