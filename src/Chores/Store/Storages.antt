-- ===== src/Chores/Store/Storages.antt =====
-- chapter12/json/homework.go and chapter12/gob/homework.go: Load and Flush by a decoder and an encoder of the
-- library, which are parameters. Load names its two results in one return statement, and Go leaves it open
-- whether the variable is read before the decoder has set it or after.
use networking_in_go.Chores.Chore.{Chore}
use networking_in_go.Chores.Store.{Codec}
use networking_in_go.Prelude.{Bytes, none, some, [], true, false, Option, List, ◌≡◌, Bool, ap}

-- `json.NewEncoder(w).Encode` or `gob.NewEncoder(w).Encode`, and the decoder's `Decode`: what was encoded is
-- decoded again.
pub record Library : Type 0 where
  pub encode : List Chore → Option Bytes
  pub decode : Bytes → Option (List Chore)
  pub decode-encode : (cs : List Chore) (b : Bytes) → encode cs ≡ some b → decode b ≡ some cs

-- When the variable `chores` is read.
pub data Order : Type 0 where
  variable_first call_first : Order

-- The chores, and whether there is an error.
load_with : Order → Option (List Chore) → List Chore × Bool
load_with o none = ([], true)
load_with variable_first (some cs) = ([], false)
load_with call_first (some cs) = (cs, false)

unfoldable pub load : Library → Order → Bytes → List Chore × Bool
unfolding load_with
load lib o b = load_with o (lib.decode b)

unfoldable pub flush : Library → List Chore → Option Bytes
flush lib cs = lib.encode cs

-- What the commands take: the chores, unless there is an error.
accepted : List Chore × Bool → Option (List Chore)
accepted (cs, true) = none
accepted (cs, false) = some cs

unfoldable pub unmarshal_by : Library → Order → Bytes → Option (List Chore)
unfolding load accepted
unmarshal_by lib o b = accepted (load lib o b)

unmarshal_by-flush :
    (lib : Library) (cs : List Chore) (b : Bytes)
    → flush lib cs ≡ some b
    → unmarshal_by lib call_first b ≡ some cs
unfolding unmarshal_by flush
unmarshal_by-flush lib cs b h =
    ap (λ o. accepted (load_with call_first o)) (lib.decode-encode cs b h)

-- With the variable read after the call, either package is a storage for the commands of chapter12/homework.go.
pub codec_of : Library → Codec
codec_of lib = record {
  marshal = flush lib;
  unmarshal = unmarshal_by lib call_first;
  unmarshal-marshal = unmarshal_by-flush lib;
}

-- With the variable read before the call, every file that can be decoded is read as one without chores.
pub load_empties :
    (lib : Library) (cs : List Chore) (b : Bytes)
    → flush lib cs ≡ some b
    → load lib variable_first b ≡ ([], false)
unfolding load flush
load_empties lib cs b h = ap (load_with variable_first) (lib.decode-encode cs b h)
