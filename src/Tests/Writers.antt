-- ===== src/Tests/Writers.antt =====
-- Tests of the sustained writer: three writers, of which the second takes two bytes and fails.
use networking_in_go.Sinks.{Store, Multierr, write_all, write}
use networking_in_go.Sinks.Errors.{write-write_all}
use networking_in_go.Prelude.{
  ℕ, ◌==◌, codes, List, [], ◌∷◌, ◌++◌, map, Option, none, some, if◌then◌else◌, ◌≡◌, ◌≢◌, ◌↔◌, refl,
  append-nil, sym,
}

data Fault : Type 0 where
  one : ℕ → Fault
  both : Fault → Fault → Fault

list_of : Fault → List Fault
list_of (one n) = one n ∷ []
list_of (both a b) = list_of a ++ list_of b

append : Option Fault → Option Fault → Option Fault
append none e = e
append (some a) none = some a
append (some a) (some b) = some (both a b)

errors : Option Fault → List Fault
unfolding list_of
errors none = []
errors (some a) = list_of a

errors-append : (a b : Option Fault) → errors (append a b) ≡ errors a ++ errors b
unfolding errors append list_of
errors-append none b = refl
errors-append (some a) none = sym (append-nil (list_of a))
errors-append (some a) (some b) = refl

first_nil : (s t : List Fault) → s ++ t ≡ [] → s ≡ []
first_nil [] t h = refl
first_nil (a ∷ s) t h = cc

list_of_some : (a : Fault) → list_of a ≢ []
unfolding list_of
list_of_some (one n) h = cc
list_of_some (both a b) h = list_of_some a (first_nil (list_of a) (list_of b) h)

errors_nil : (e : Option Fault) → errors e ≡ [] → e ≡ none
unfolding errors
errors_nil none h = refl
errors_nil (some a) h = absurd (list_of_some a h)

multierr : Multierr Fault
unfolding errors
multierr = record {
  append = append;
  errors = errors;
  errors_none = refl;
  errors-append = errors-append;
  errors_nil = errors_nil;
}

single : (w : ℕ) → multierr.errors (some (one w)) ≡ one w ∷ []
unfolding multierr errors list_of
single w = refl

abbrev rooms : Store
rooms i = if i == 1 then record { taken = []; room = 2 } else record { taken = []; room = 9 }

write-write_all_example :
    let (n, e, store') = write multierr one (0 ∷ 1 ∷ 2 ∷ []) (codes "abc") rooms in
    let (k, failed, store'') = write_all (0 ∷ 1 ∷ 2 ∷ []) (codes "abc") rooms in
    (n ≡ k)
    × (multierr.errors e ≡ map one failed)
    × (store' ≡ store'')
    × ((e ≡ none) ↔ (failed ≡ []))
write-write_all_example = write-write_all multierr one single (0 ∷ 1 ∷ 2 ∷ []) (codes "abc") rooms
