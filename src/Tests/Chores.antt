-- ===== src/Tests/Chores.antt =====
-- Tests of chapter12, with a storage of their own: a chore is whether it is done, and its code points, each by two
-- larger; a code point that there is not cannot be encoded.
use networking_in_go.Chores.Client as Client
use networking_in_go.Chores.Chore.{Chore, Follows, new_chores, mark}
use networking_in_go.Chores.Client.{answered}
use networking_in_go.Chores.Client.Listed.{rows, row, list-serve_all-add}
use networking_in_go.Chores.Client.Remote.{seen, complete_wraps}
use networking_in_go.Chores.Robot.{
  Rosie, Request, add_request, complete_request, list_request, success, serve_all,
}
use networking_in_go.Chores.Robot.Refinement.{contents, serve_all_spec, serve_all-refines}
use networking_in_go.Chores.Store.{
  Codec, Disk, storage_failed, not_found, chore_index, load, flush, add, complete, run, list, main,
  table,
}
use networking_in_go.Chores.Store.Laws.{load-complete}
use networking_in_go.Go.Decimal.{atoi, digits}
use networking_in_go.Go.Fields.{split, join, trim_space, trim_left, trim_tail, is_space}
use networking_in_go.Go.Text.{to_lower}
use networking_in_go.Chores.Client.Same.{client_words, main-Store}
use networking_in_go.Chores.Store as Store
use networking_in_go.Prelude.{
  get_elem?, Bytes, if◌then◌else◌, ltb, ◌&&◌, arith, ℕ, none, some, [], ◌∷◌, true, false, refl,
  Option, List, ◌≡◌, Bool, ◌++◌, ◌-◌, ◌≤◌, ap, ◌∙◌, codes, equal, pos, ok,
}

shift : Bytes → Bytes
shift [] = []
shift (c ∷ s) = ℕ.suc (ℕ.suc c) ∷ shift s

encode : List Chore → Bytes
unfolding shift
encode [] = []
encode (c ∷ cs) = (if c.complete then 1 else 0) ∷ (shift c.description ++ encode cs)

put : ℕ → Bytes × List Chore → Bytes × List Chore
put ℕ.zero (s, cs) = ([], record { complete = false; description = s } ∷ cs)
put (ℕ.suc ℕ.zero) (s, cs) = ([], record { complete = true; description = s } ∷ cs)
put (ℕ.suc (ℕ.suc c)) (s, cs) = (c ∷ s, cs)

-- The rest of a chore's description, and the chores behind it.
decode : Bytes → Bytes × List Chore
unfolding put
decode [] = ([], [])
decode (b ∷ s) = put b (decode s)

valid_text : Bytes → Bool
valid_text [] = true
valid_text (c ∷ s) = ltb c 0x110000 && valid_text s

valid : List Chore → Bool
unfolding valid_text
valid [] = true
valid (c ∷ cs) = valid_text c.description && valid cs

decode-shift :
    (s : Bytes) (b : Bytes) (cs : List Chore)
    → decode b ≡ ([], cs)
    → decode (shift s ++ b) ≡ (s, cs)
unfolding decode shift put
decode-shift [] b cs h = h
decode-shift (c ∷ s) b cs h = ap (put (ℕ.suc (ℕ.suc c))) (decode-shift s b cs h)

put_flag :
    (b : Bool) (s : Bytes) (cs : List Chore)
    → put (if b then 1 else 0) (s, cs) ≡ ([], record { complete = b; description = s } ∷ cs)
unfolding put
put_flag true s cs = refl
put_flag false s cs = refl

decode-encode : (cs : List Chore) → decode (encode cs) ≡ ([], cs)
unfolding decode encode
decode-encode [] = refl
decode-encode (c ∷ cs) =
    ap (put (if c.complete then 1 else 0))
      (decode-shift c.description (encode cs) cs (decode-encode cs))
    ∙ put_flag c.complete c.description cs

marshal : List Chore → Option Bytes
unfolding valid encode
marshal cs = if valid cs then some (encode cs) else none

unmarshal : Bytes → Option (List Chore)
unfolding decode
unmarshal b = some (decode b).1

unmarshal-marshal : (cs : List Chore) (b : Bytes) → marshal cs ≡ some b → unmarshal b ≡ some cs
unfolding marshal unmarshal
unmarshal-marshal cs b h = ground (arith, decode-encode cs)

codec : Codec
unfolding marshal unmarshal
codec = record { marshal = marshal; unmarshal = unmarshal; unmarshal-marshal = unmarshal-marshal }

abbrev rent : Chore
rent = record { complete = false; description = codes "Pay rent" }

abbrev milk : Chore
milk = record { complete = false; description = codes "Buy milk" }

abbrev disk : Disk
unfolding encode shift
disk = record { file = some (encode (rent ∷ [])); readable = true; writable = true; room = 4096 }

adds : new_chores (codes " Buy milk , ,Pay rent") ≡ milk ∷ rent ∷ []
unfolding new_chores split trim_space trim_left trim_tail is_space equal
adds = refl

load-complete_example :
    (n : ℕ) × (atoi (codes "1") ≡ some (pos n))
    × (1 ≤ n)
    × (n ≤ 1)
    × (load codec (complete codec (codes "1") disk).1 ≡ ok (mark (rent ∷ []) (n - 1)))
unfolding load codec complete flush atoi digits chore_index mark
load-complete_example = load-complete codec (codes "1") disk refl refl refl

lists :
    (main codec (codes "Add" ∷ codes "Buy" ∷ codes "milk" ∷ []) disk).0
    ≡ ok (
        table (
          record { number = 1; crossed = false; text = codes "Pay rent" }
          ∷ record { number = 2; crossed = false; text = codes "Buy milk" }
          ∷ []))
unfolding main run list load codec add flush new_chores split trim_space trim_left trim_tail
    is_space equal join to_lower
lists = refl

abbrev rosie : Rosie
rosie = record { chores = none }

abbrev requests : List Request
requests = list_request ∷ add_request (rent ∷ []) ∷ complete_request (pos 1) ∷ []

serve_all-refines_example :
    let (r', xs) = serve_all rosie requests in
    (contents r', xs) ≡ serve_all_spec (contents rosie) requests
serve_all-refines_example = serve_all-refines rosie requests

complete_wraps_example :
    (seen (Client.complete (codes "4294967297") (record { chores = some (rent ∷ []) }))
      ≡ (mark (rent ∷ []) 0, answered success))
    × (chore_index (pos 4294967297) 1 ≡ none)
unfolding atoi digits
complete_wraps_example =
    complete_wraps (codes "4294967297") (record { chores = some (rent ∷ []) }) 1 1 refl
      (omega arith) (omega arith) (omega arith) (omega arith)

abbrev add_milk : List Bytes
add_milk = codes "add" ∷ codes "Buy milk" ∷ []

abbrev rent_held : Rosie
rent_held = record { chores = some (rent ∷ []) }

main-Store_example :
    ((Client.main add_milk rent_held).1
      ≡ some (
          table (
            record { number = 1; crossed = false; text = codes "Pay rent" }
            ∷ record { number = 2; crossed = false; text = codes "Buy milk" }
            ∷ [])))
    × (load codec (Store.main codec add_milk disk).1
        ≡ ok (contents (Client.main add_milk rent_held).0))
unfolding Store.main run list load codec add flush new_chores split trim_space trim_left trim_tail
    is_space equal join to_lower client_words
main-Store_example = main-Store codec add_milk disk rent_held refl refl (omega arith) refl

-- "Bread" and "Milk" are added; another client lists, adds and marks, and "Milk" is still line 2.
list-serve_all-add_example :
    let r = (serve_all (Client.add (codes "Bread,Milk") (record { chores = none })).0 requests).0 in
    (c' : Chore) × Follows (record { complete = false; description = codes "Milk" }) c'
    × (get_elem? (rows (Client.list r).1) 1 ≡ some (row 1 c'))
unfolding new_chores split trim_space trim_left trim_tail is_space equal
list-serve_all-add_example =
    list-serve_all-add (record { chores = none }) (codes "Bread,Milk") requests 1
      (record { complete = false; description = codes "Milk" }) refl
