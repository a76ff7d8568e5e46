-- ===== src/Chores/Store.antt =====
-- chapter12/homework.go: the commands on the data file. The storage package's encoding is a
-- parameter; chapter12/proto, which the program imports, hands on to `proto.Marshal` and
-- `proto.Unmarshal`, which are not part of the repository. A closed file's errors are only printed.
pub mod Laws
pub mod Storages
use networking_in_go.Chores.Chore.{Chore, new_chores, mark}
use networking_in_go.Go.Decimal.{atoi}
use networking_in_go.Go.Fields.{join}
use networking_in_go.Go.Text.{to_lower}
use networking_in_go.Prelude.{
  ℕ, ◌+◌, ◌-◌, Bool, true, false, ◌&&◌, ◌||◌, List, [], ◌∷◌, ◌++◌, ◌≡◌, Option, none, some, map,
  Bytes, codes, equal, Result, ok, err, ltb, ◌==◌, if◌then◌else◌, length, take, ℤ, pos, negsuc,
  drop, ◌>>=◌, refl, inl, inr, ◌≤◌, ◌<◌, zero, suc, ap, sym, ◌∙◌,
}

-- The encoding: a list may have none, as a description that is no UTF-8 has none in a proto3 message.
-- What is encoded is decoded again.
pub record Codec : Type 0 where
  pub marshal : List Chore → Option Bytes
  pub unmarshal : Bytes → Option (List Chore)
  pub unmarshal-marshal :
      (cs : List Chore) (b : Bytes) → marshal cs ≡ some b → unmarshal b ≡ some cs

-- The data file, if there is one, and whether it can be opened and created.
pub record Disk : Type 0 where
  pub file : Option Bytes
  pub readable : Bool
  pub writable : Bool
  pub room : ℕ  -- how many bytes a write can put into the file

pub data StoreError : Type 0 where
  open_failed create_failed storage_failed bad_number : StoreError
  not_found : ℤ → StoreError

-- The index behind a number from 1 to the length.
unfoldable pub chore_index : ℤ → ℕ → Option ℕ
chore_index (negsuc n) len = none
chore_index (pos n) len = if n == 0 || ltb len n then none else some (n - 1)

-- A line of the table: the number, whether there is an X, and the description.
pub record Row : Type 0 where
  pub number : ℕ
  pub crossed : Bool
  pub text : Bytes

pub data Listing : Type 0 where
  caught_up nothing_to_do : Listing  -- the line for no chores, of the two programs
  table : List Row → Listing

-- The loop of `list`, from index `i` on.
unfoldable pub rows_from : ℕ → List Chore → List Row
rows_from i [] = []
rows_from i (c ∷ cs) =
    record { number = i + 1; crossed = c.complete; text = c.description } ∷ rows_from (i + 1) cs

-- `flag.Arg(i)`: empty where there is none.
unfoldable pub arg : ℕ → List Bytes → Bytes
arg i [] = []
arg ℕ.zero (a ∷ rest) = a
arg (ℕ.suc i) (a ∷ rest) = arg i rest

module _ (codec : Codec) where
  open codec use {marshal, unmarshal}

  decoded : Option (List Chore) → Result StoreError (List Chore)
  decoded none = err storage_failed
  decoded (some cs) = ok cs

  load_file : Option Bytes → Bool → Result StoreError (List Chore)
  unfolding decoded
  load_file none readable = ok []
  load_file (some b) readable = if readable then decoded (unmarshal b) else err open_failed

  unfoldable pub load : Disk → Result StoreError (List Chore)
  unfolding load_file
  load d = load_file d.file d.readable

  write_file : Option Bytes → Disk → Option StoreError × Disk
  write_file none d = (some storage_failed, d)
  write_file (some b) d = (
    if ltb d.room (length b) then some storage_failed else none,
    record d { file = some (take d.room b) },
  )

  -- `os.Create` empties the file before the storage package encodes the chores.
  unfoldable pub flush : List Chore → Disk → Option StoreError × Disk
  unfolding write_file
  flush cs d =
      if d.writable
      then write_file (marshal cs) (record d { file = some [] })
      else (some create_failed, d)

  add_to : Bytes → Disk → Result StoreError (List Chore) → Option StoreError × Disk
  unfolding flush
  add_to s d (err e) = (some e, d)
  add_to s d (ok chores) = flush (chores ++ new_chores s) d

  unfoldable pub add : Bytes → Disk → Option StoreError × Disk
  unfolding add_to
  add s d = add_to s d (load d)

  complete_at : ℤ → Option ℕ → List Chore → Disk → Option StoreError × Disk
  unfolding flush
  complete_at i none chores d = (some (not_found i), d)
  complete_at i (some k) chores d = flush (mark chores k) d

  complete_in : ℤ → Disk → Result StoreError (List Chore) → Option StoreError × Disk
  unfolding complete_at
  complete_in i d (err e) = (some e, d)
  complete_in i d (ok chores) = complete_at i (chore_index i (length chores)) chores d

  complete_number : Option ℤ → Disk → Option StoreError × Disk
  unfolding complete_in
  complete_number none d = (some bad_number, d)
  complete_number (some i) d = complete_in i d (load d)

  unfoldable pub complete : Bytes → Disk → Option StoreError × Disk
  unfolding complete_number
  complete s d = complete_number (atoi s) d

  -- The `switch` of `main`, on the arguments behind the flags.
  unfoldable pub run : List Bytes → Disk → Option StoreError × Disk
  unfolding add complete arg
  run args d =
      let command = map to_lower (arg 0 args) in
      if equal command (codes "add")
      then add (join (drop 1 args) (codes " ")) d
      else if equal command (codes "complete")
      then complete (arg 1 args) d
      else (none, d)

  unfoldable pub list : Disk → Result StoreError Listing
  unfolding rows_from
  list d = elim (load d) [
    | err e ↦ err e
    | ok [] ↦ ok caught_up
    | ok (c ∷ cs) ↦ ok (table (rows_from 0 (c ∷ cs)))
  ]

  unfoldable pub list_after : Option StoreError × Disk → Result StoreError Listing × Disk
  list_after (some e, d) = (err e, d)
  list_after (none, d) = (list d, d)

  -- What `main` prints, or the error that ends it, and the data file that it leaves.
  unfoldable pub main : List Bytes → Disk → Result StoreError Listing × Disk
  unfolding list_after
  main args d = list_after (run args d)
