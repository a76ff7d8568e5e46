-- ===== src/Monitor.antt =====
-- chapter4/monitor.go: Monitor, whose Write logs, and the goroutine of ExampleMonitor that echoes a message
-- and logs it as it comes and as it goes. A writer that fails does so with one text.
pub mod Logged
use networking_in_go.Sinks.{Sink, write_sink}
use networking_in_go.Prelude.{
  true, false, none, some, length, if◌then◌else◌, ◌==◌, Bytes, codes, none, some, [], ◌∷◌, refl,
  inl, inr, Option, List, ◌≡◌, Bool, ℕ, ◌++◌, ◌+◌, ◌-◌, ◌≤◌, ◌<◌, zero, suc, ap, sym, ◌∙◌,
  if◌then◌else◌, ◌==◌, length,
}

-- What the goroutine writes to: the connection, and the output of the monitor's logger.
pub record Ends : Type 0 where
  pub conn : Sink
  pub out : Sink

pub data ReadError : Type 0 where
  eof : ReadError
  failed : Bytes → ReadError

-- The error of a writer: its text.
abbrev pub write_error : Bytes
write_error = codes "write failed"

-- A newline is put behind a text that has none there.
unfoldable pub end_line : Bytes → Bytes
end_line [] = b'\n' ∷ []
end_line (c ∷ []) = if c == b'\n' then c ∷ [] else c ∷ b'\n' ∷ []
end_line (c ∷ d ∷ s) = c ∷ end_line (d ∷ s)

-- `Logger.Output` of log.New(os.Stdout, "monitor: ", 0): whether it fails, and the output.
unfoldable pub output : Bytes → Sink → Bool × Sink
unfolding end_line write_sink
output s out = let (n, bad, out') = write_sink (codes "monitor: " ++ end_line s) out in (bad, out')

-- `Monitor.Write`: the length is reported even if the output fails.
unfoldable pub monitor_write : Bytes → Sink → ℕ × Bool × Sink
unfolding output
monitor_write p out = let (bad, out') = output p out in (length p, bad, out')

-- `Println`.
unfoldable pub println : Bytes → Ends → Ends
unfolding output
println s w = record w { out = (output (s ++ codes "\n") w.out).1 }

tee_result : Bytes → Option ReadError → Bool × Sink → Ends → Option ReadError × Ends
tee_result b error (true, out) w = (some (failed write_error), record w { out = out })
tee_result b error (false, out) w = (error, record w { out = out })

-- `Read` of the TeeReader: what the connection's `Read` gave is logged, if it is not empty.
unfoldable pub tee_read : Bytes → Option ReadError → Ends → Option ReadError × Ends
unfolding tee_result monitor_write
tee_read [] error w = (error, w)
tee_read (c ∷ b) error w =
    let (n, bad, out) = monitor_write (c ∷ b) w.out in tee_result (c ∷ b) error (bad, out) w

log_echo : Bytes → Ends → Bool × Ends
unfolding monitor_write
log_echo b w = let (n, bad, out) = monitor_write b w.out in (bad, record w { out = out })

send_echo : Bytes → ℕ × Bool × Sink → Ends → Bool × Ends
unfolding log_echo
send_echo b (n, true, conn) w = (true, record w { conn = conn })
send_echo b (n, false, conn) w = log_echo b (record w { conn = conn })

-- `Write` of the MultiWriter: the connection first, then the monitor, unless the connection fails.
unfoldable pub multi_write : Bytes → Ends → Bool × Ends
unfolding send_echo write_sink
multi_write b w = send_echo b (write_sink b w.conn) w

report : Bool × Ends → Ends
unfolding println
report (true, w) = println write_error w
report (false, w) = w

echo : Bytes → Option ReadError × Ends → Ends
unfolding println multi_write report
echo b (some (failed e), w) = println e w
echo b (some eof, w) = report (multi_write b w)
echo b (none, w) = report (multi_write b w)

-- The goroutine, from the first `Read` on: what that gives, and its error.
unfoldable pub serve : Bytes → Option ReadError → Ends → Ends
unfolding echo tee_read
serve b error w = echo b (tee_read b error w)
