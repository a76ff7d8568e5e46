-- ===== src/Sinks/Example.antt =====
-- chapter13/multi.go: the example, for the file and line that log.Lshortfile puts in front.
use networking_in_go.Monitor.{end_line}
use networking_in_go.Sinks.{
  Sink, writer, Store, write_sink, update, write_all, sustained_multi_writer,
}
use networking_in_go.Sinks.Levels.{log_file, std_out, taken_of, write_sink-write_sink}
use networking_in_go.Prelude.{
  length-append, ◌+◌, ◌≤◌, Bytes, codes, length, take, take_of_le, [], ◌∷◌, ◌++◌, ◌≡◌, ap, ◌∙◌,
  arith,
}

-- A call of the logger's Print, with log.Lmsgprefix: the prefix stands before the message.
unfoldable pub prefixed_line : Bytes → Bytes → Bytes
unfolding end_line
prefixed_line at s = at ++ codes ": example: " ++ end_line s

-- `fmt.Print` writes to the standard output, and its error is not looked at.
unfoldable pub put_out : Bytes → Store → Store
unfolding write_sink update
put_out s store = update std_out (write_sink s (store std_out)).2 store

unfoldable pub log_both : Bytes → Store → Store
unfolding prefixed_line write_all sustained_multi_writer
log_both at store =
    let ws = sustained_multi_writer (writer std_out ∷ writer log_file ∷ []) in
    (write_all ws (prefixed_line at (codes "Canada is south of Detroit")) store).2

-- Example_logMultiWriter, where the buffer is empty at first.
unfoldable pub example_multi_writer : Bytes → Store → Store
unfolding put_out log_both
example_multi_writer at store =
    let store' = log_both at (put_out (codes "standard output:\n") store) in
    put_out (codes "\nlog file contents:\n" ++ (store' log_file).taken) store'

-- Three writes take what one write of all three texts takes.
three_writes :
    (a b c : Bytes) (s : Sink)
    → taken_of c (write_sink b (write_sink a s).2).2 ≡ taken_of (a ++ (b ++ c)) s
three_writes a b c s =
    write_sink-write_sink b c (write_sink a s).2 ∙ write_sink-write_sink a (b ++ c) s

-- The standard output has the line between the two texts of the example, and once more behind them as the
-- content of the log file, if there is room for all that.
pub example_multi_writer_lem :
    (at : Bytes) (store : Store)
    → let line = prefixed_line at (codes "Canada is south of Detroit") in
      (store log_file).taken ≡ []
      → length line ≤ (store log_file).room
      → 37 + length line + length line ≤ (store std_out).room
      → (example_multi_writer at store std_out).taken
        ≡ (store std_out).taken
          ++ (codes "standard output:\n" ++ (line ++ (codes "\nlog file contents:\n" ++ line)))
unfolding example_multi_writer put_out log_both write_all update sustained_multi_writer
example_multi_writer_lem at store empty file out =
    let line = prefixed_line at (codes "Canada is south of Detroit") in
    let a = codes "standard output:\n" in
    let end = codes "\nlog file contents:\n" in
    let logged : (store log_file).taken ++ take (store log_file).room line ≡ line =
      ap (λ s. s ++ take (store log_file).room line) empty
      ∙ take_of_le (store log_file).room line file in
    let fits : length (a ++ (line ++ (end ++ line))) ≤ (store std_out).room = omega (
      arith,
      length-append a (line ++ (end ++ line)),
      length-append line (end ++ line),
      length-append end line,
    ) in
    ap (λ s. taken_of (end ++ s) (write_sink line (write_sink a (store std_out)).2).2) logged
    ∙ three_writes a line (end ++ line) (store std_out)
    ∙ ap (λ s. (store std_out).taken ++ s)
        (take_of_le (store std_out).room (a ++ (line ++ (end ++ line))) fits)
