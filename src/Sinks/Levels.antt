-- ===== src/Sinks/Levels.antt =====
-- chapter13/level.go: two loggers, of which the one for errors writes to the log file and to the standard
-- output, and the other to the standard output alone.
use networking_in_go.Monitor.{end_line}
use networking_in_go.Sinks.{
  Sink, writer, Store, write_sink, update, write_all, sustained_multi_writer,
}
use networking_in_go.Prelude.{
  if◌then◌else◌, Bool-cases, append-nil, take_of_le, Bytes, codes, length, take, arith,
  append_assoc, [], ◌∷◌, true, false, refl, inl, inr, List, ◌≡◌, Bool, ℕ, ◌++◌, ◌-◌, ap, sym, ◌∙◌,
}

abbrev pub log_file : ℕ
log_file = 0

abbrev pub std_out : ℕ
std_out = 1

-- A call of a logger's Print, with the file and line of the call, which log.Lshortfile puts in front.
pub data Entry : Type 0 where
  error debug : Bytes → Bytes → Entry

-- What a logger writes, by one Write.
unfoldable pub line_of : Entry → Bytes
unfolding end_line
line_of (error at s) = codes "ERROR: " ++ at ++ codes ": " ++ end_line s
line_of (debug at s) = codes "DEBUG: " ++ at ++ codes ": " ++ end_line s

-- The writers of the two loggers.
unfoldable pub writers_of : Entry → List ℕ
unfolding sustained_multi_writer
writers_of (error at s) = sustained_multi_writer (writer log_file ∷ writer std_out ∷ [])
writers_of (debug at s) = std_out ∷ []

unfoldable pub print : Entry → Store → Store
unfolding write_all writers_of line_of
print e store = (write_all (writers_of e) (line_of e) store).2

unfoldable pub print_all : List Entry → Store → Store
unfolding print
print_all [] store = store
print_all (e ∷ es) store = print_all es (print e store)

-- The lines that a writer is given.
unfoldable pub lines_for : (Entry → Bool) → List Entry → Bytes
unfolding line_of
lines_for given [] = []
lines_for given (e ∷ es) = if given e then line_of e ++ lines_for given es else lines_for given es

abbrev pub is_error : Entry → Bool
is_error (error at s) = true
is_error (debug at s) = false

-- A writer after it was given so many bytes in one write.
abbrev pub taken_of : Bytes → Sink → Bytes
taken_of p s = s.taken ++ take s.room p

print-log_file :
    (e : Entry) (store : Store)
    → print e store log_file
      ≡ (if is_error e then (write_sink (line_of e) (store log_file)).2 else store log_file)
unfolding print writers_of write_all update sustained_multi_writer
print-log_file (error at s) store = refl
print-log_file (debug at s) store = refl

print-std_out :
    (e : Entry) (store : Store) → print e store std_out ≡ (write_sink (line_of e) (store std_out)).2
unfolding print writers_of write_all update sustained_multi_writer
print-std_out (error at s) store = refl
print-std_out (debug at s) store = refl

take-append : (n : ℕ) (p q : Bytes) → take n p ++ take (n - length (take n p)) q ≡ take n (p ++ q)
take-append ℕ.zero p q = let e : 0 - 0 ≡ 0 = omega arith in ap (λ m. take m q) e
take-append (ℕ.suc n) [] q = let e : ℕ.suc n - 0 ≡ ℕ.suc n = omega arith in ap (λ m. take m q) e
take-append (ℕ.suc n) (b ∷ p) q =
    let e : ℕ.suc n - ℕ.suc (length (take n p)) ≡ n - length (take n p) = omega arith in
    ap (◌∷◌ b) (ap (λ m. take n p ++ take m q) e ∙ take-append n p q)

-- Two writes take what one write of both texts takes.
pub write_sink-write_sink :
    (p q : Bytes) (s : Sink) → taken_of q (write_sink p s).2 ≡ taken_of (p ++ q) s
unfolding write_sink
write_sink-write_sink p q s =
    append_assoc s.taken (take s.room p) _ ∙ ap (λ z. s.taken ++ z) (take-append s.room p q)

module _ (i : ℕ) (given : Entry → Bool)
    (printed : (e : Entry) (store : Store)
      → print e store i ≡ (if given e then (write_sink (line_of e) (store i)).2 else store i)) where
  print_taken :
      (e : Entry) (store : Store) (q : Bytes)
      → taken_of q (print e store i) ≡ taken_of (if given e then line_of e ++ q else q) (store i)
  print_taken e store q = elim (Bool-cases (given e)) [
    | inl f ↦
        ap (taken_of q) (rw f at (printed e store))
        ∙ rw f (write_sink-write_sink (line_of e) q (store i))
    | inr f ↦ ap (taken_of q) (rw f at (printed e store)) ∙ rw f refl
  ]

  print_all_taken :
      (es : List Entry) (store : Store)
      → (print_all es store i).taken ≡ taken_of (lines_for given es) (store i)
  unfolding print_all lines_for
  print_all_taken [] store = sym (
      ap (λ z. (store i).taken ++ z) (take_of_le (store i).room [] (omega arith))
      ∙ append-nil (store i).taken)
  print_all_taken (e ∷ es) store =
      print_all_taken es (print e store) ∙ print_taken e store (lines_for given es)

-- Whatever is logged in whatever order, the log file gets the lines of the errors and the standard output all
-- lines, each in their order and as far as it takes them: what one of them takes does not depend on the other.
pub print_all-lines_for :
    (es : List Entry) (store : Store)
    → ((print_all es store log_file).taken ≡ taken_of (lines_for is_error es) (store log_file))
      × ((print_all es store std_out).taken ≡ taken_of (lines_for (λ e. true) es) (store std_out))
print_all-lines_for es store = (
  print_all_taken log_file is_error print-log_file es store,
  print_all_taken std_out (λ e. true) print-std_out es store,
)
