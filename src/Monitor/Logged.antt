-- ===== src/Monitor/Logged.antt =====
-- chapter4/monitor.go: what is logged of the traffic.
use networking_in_go.Monitor.{
  Ends, ReadError, eof, failed, end_line, output, monitor_write, println, tee_read, tee_result,
  multi_write, send_echo, log_echo, report, echo, serve, write_error, false,
}
use networking_in_go.Sinks.{Sink, write_sink}
use networking_in_go.Prelude.{
  Bytes, codes, length, take, take_of_le, ltb, arith, append_assoc, append-nil, none, some, [], ◌∷◌,
  true, refl, inl, inr, Option, ◌≡◌, Bool, ℕ, ◌++◌, ◌-◌, ◌≤◌, ap, sym, ◌∙◌, ◌⊎◌, ◌*◌,
}

-- The line that the monitor writes for a text.
abbrev pub line : Bytes → Bytes
line s = codes "monitor: " ++ end_line s

-- A writer that has taken one text more.
abbrev pub taking : Bytes → Sink → Sink
taking p s = record { taken = s.taken ++ p; room = s.room - length p }

write_sink-taking :
    (p : Bytes) (s : Sink) → length p ≤ s.room → write_sink p s ≡ (length p, false, taking p s)
unfolding write_sink
write_sink-taking p s h =
    let e : take s.room p ≡ p = take_of_le s.room p h in
    let f : ltb s.room (length p) ≡ false = ground arith in rw (e, f) refl

output-taking :
    (s : Bytes) (out : Sink)
    → length (line s) ≤ out.room
    → output s out ≡ (false, taking (line s) out)
unfolding output
output-taking s out h = ap (λ r. (r.1, r.2)) (write_sink-taking (line s) out h)

-- What is written before stays.
abbrev Grows : Sink → Sink → Type 0
Grows s t = (r : Bytes) × (t.taken ≡ s.taken ++ r)

output-Grows : (s : Bytes) (out : Sink) → Grows out (output s out).1
unfolding output write_sink
output-Grows s out = (take out.room (line s), refl)

-- An output that does not fail is whole.
output_whole :
    (s : Bytes) (out : Sink)
    → (output s out).0 ≡ false
    → (output s out).1.taken ≡ out.taken ++ line s
unfolding output write_sink
output_whole s out h = ap (λ z. out.taken ++ z) (take_of_le out.room (line s) (ground arith))

Grows-Grows : (s t u : Sink) → Grows s t → Grows t u → Grows s u
Grows-Grows s t u (p, e) (q, f) = (p ++ q, f ∙ ap (λ z. z ++ q) e ∙ append_assoc s.taken p q)

send_echo-Grows : (b : Bytes) (r : ℕ × Bool × Sink) (w : Ends) → Grows w.out (send_echo b r w).1.out
unfolding send_echo log_echo monitor_write
send_echo-Grows b (n, true, conn) w = ([], sym (append-nil w.out.taken))
send_echo-Grows b (n, false, conn) w = output-Grows b w.out

report-Grows : (r : Bool × Ends) → Grows r.1.out (report r).out
unfolding report println
report-Grows (true, w) = output-Grows (write_error ++ codes "\n") w.out
report-Grows (false, w) = ([], sym (append-nil w.out.taken))

echoed-Grows : (b : Bytes) (w : Ends) → Grows w.out (report (multi_write b w)).out
unfolding multi_write
echoed-Grows b w =
    Grows-Grows w.out (multi_write b w).1.out (report (multi_write b w)).out
      (send_echo-Grows b (write_sink b w.conn) w) (report-Grows (multi_write b w))

-- What was sent is unchanged, or the text was logged.
abbrev pub Logged : Bytes → Ends → Ends → Type 0
Logged b w w' =
    (w'.conn.taken ≡ w.conn.taken) ⊎ ((r : Bytes) × (w'.out.taken ≡ w.out.taken ++ (line b ++ r)))

output-Logged :
    (b : Bytes) (w : Ends) (out : Sink) (w' : Ends)
    → out.taken ≡ w.out.taken ++ line b
    → Grows out w'.out
    → Logged b w w'
output-Logged b w out w' e (r, f) =
    inr (r, f ∙ ap (λ z. z ++ r) e ∙ append_assoc w.out.taken (line b) r)

echoed-Logged :
    (b : Bytes) (w : Ends) (out : Sink)
    → out.taken ≡ w.out.taken ++ line b
    → Logged b w (report (multi_write b (record w { out = out })))
echoed-Logged b w out e =
    output-Logged b w out (report (multi_write b (record w { out = out }))) e
      (echoed-Grows b (record w { out = out }))

echo-Logged :
    (b : Bytes) (error : Option ReadError) (w : Ends) (out : Sink)
    → out.taken ≡ w.out.taken ++ line b
    → Logged b w (echo b (error, record w { out = out }))
unfolding echo println
echo-Logged b none w out e = echoed-Logged b w out e
echo-Logged b (some eof) w out e = echoed-Logged b w out e
echo-Logged b (some (failed m)) w out e = inl refl

tee_result-Logged :
    (b : Bytes) (error : Option ReadError) (r : Bool × Sink) (w : Ends)
    → (r.0 ≡ false → r.1.taken ≡ w.out.taken ++ line b)
    → Logged b w (echo b (tee_result b error r w))
unfolding tee_result echo println
tee_result-Logged b error (true, out) w h = inl refl
tee_result-Logged b error (false, out) w h = echo-Logged b error w out (h refl)

send_echo_conn : (b : Bytes) (r : ℕ × Bool × Sink) (w : Ends) → (send_echo b r w).1.conn ≡ r.2
unfolding send_echo log_echo
send_echo_conn b (n, true, conn) w = refl
send_echo_conn b (n, false, conn) w = refl

report_conn : (r : Bool × Ends) → (report r).conn ≡ r.1.conn
unfolding report println
report_conn (true, w) = refl
report_conn (false, w) = refl

write_nothing : (s : Sink) → (write_sink [] s).2.taken ≡ s.taken
unfolding write_sink
write_nothing s = ap (λ z. s.taken ++ z) (take_of_le s.room [] (omega arith)) ∙ append-nil s.taken

sent_nothing : (w : Ends) → (report (multi_write [] w)).conn.taken ≡ w.conn.taken
unfolding multi_write
sent_nothing w =
    ap (λ s. s.taken) (report_conn (multi_write [] w) ∙ send_echo_conn [] (write_sink [] w.conn) w)
    ∙ write_nothing w.conn

-- Nothing is sent to the client that was not logged: either the client is sent nothing, or a line with
-- all that was read is in the output, whatever fails.
pub serve-Logged : (b : Bytes) (error : Option ReadError) (w : Ends) → Logged b w (serve b error w)
unfolding serve tee_read monitor_write echo println
serve-Logged [] none w = inl (sent_nothing w)
serve-Logged [] (some eof) w = inl (sent_nothing w)
serve-Logged [] (some (failed m)) w = inl refl
serve-Logged (c ∷ b) error w =
    tee_result-Logged (c ∷ b) error (output (c ∷ b) w.out) w (output_whole (c ∷ b) w.out)

-- The state once a message was logged, and once it was sent too.
abbrev logging : Bytes → Ends → Ends
logging b w = record w { out = taking (line b) w.out }

abbrev sending : Bytes → Ends → Ends
sending b w = record { conn = taking b w.conn; out = taking (line b) w.out }

multi_write-sending :
    (b : Bytes) (w : Ends)
    → length b ≤ w.conn.room
    → length (line b) ≤ w.out.room
    → multi_write b w ≡ (false, sending b w)
unfolding multi_write send_echo log_echo monitor_write
multi_write-sending b w h k =
    ap (λ r. send_echo b r w) (write_sink-taking b w.conn h)
    ∙ ap (λ r. (r.0, record { conn = taking b w.conn; out = r.1 })) (output-taking b w.out k)

tee_read-logging :
    (c : ℕ) (b : Bytes) (error : Option ReadError) (w : Ends)
    → length (line (c ∷ b)) ≤ w.out.room
    → tee_read (c ∷ b) error w ≡ (error, logging (c ∷ b) w)
unfolding tee_read tee_result monitor_write
tee_read-logging c b error w h =
    ap (λ r. tee_result (c ∷ b) error r w) (output-taking (c ∷ b) w.out h)

echoed-sending :
    (b : Bytes) (w : Ends)
    → length b ≤ w.conn.room
    → length (line b) ≤ w.out.room
    → report (multi_write b w) ≡ sending b w
unfolding report
echoed-sending b w h k = ap report (multi_write-sending b w h k)

-- A message that is read, with or without the end of the stream, is sent back, and is logged twice, if the
-- connection and the output take it.
pub serve-line :
    (c : ℕ) (b : Bytes) (w : Ends)
    → length (c ∷ b) ≤ w.conn.room
    → 2 * length (line (c ∷ b)) ≤ w.out.room
    → let w' = serve (c ∷ b) none w in
      (w'.conn.taken ≡ w.conn.taken ++ c ∷ b)
      × (w'.out.taken ≡ w.out.taken ++ (line (c ∷ b) ++ line (c ∷ b)))
      × (serve (c ∷ b) (some eof) w ≡ w')
unfolding serve echo
serve-line c b w h k =
    let f = echoed-sending (c ∷ b) (logging (c ∷ b) w) h (omega arith) in
    let e = ap (echo (c ∷ b)) (tee_read-logging c b none w (omega arith)) ∙ f in
    (
      ap (λ w'. w'.conn.taken) e,
      ap (λ w'. w'.out.taken) e ∙ append_assoc w.out.taken (line (c ∷ b)) (line (c ∷ b)),
      ap (echo (c ∷ b)) (tee_read-logging c b (some eof) w (omega arith)) ∙ (f ∙ sym e),
    )
