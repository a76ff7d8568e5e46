-- ===== src/Echo/Answers.antt =====
-- chapter5/echo.go, chapter7/server.go and chapter11/server.go: what the clients get back.
use networking_in_go.Echo.{
  buffer_size, running, Read, failed, got, Connection, exchange, close, echo_stream, echo_idle,
  Packet, lost, packet, echo_packets, [],
}
use mathlib.Core.List.{append-nil}
use networking_in_go.Prelude.{
  ◌&&◌, not, Bytes, take, drop, take-append-drop, append_assoc, length, All, take_of_le, ◌∷◌, true,
  false, refl, List, ◌≡◌, Bool, ℕ, ◌++◌, ◌≤◌, ap, sym, ◌∙◌, ◌≢◌, none, some,
}

-- What the client sends in all.
pub sent_by : List Read → Bytes
sent_by [] = []
sent_by (failed ∷ rest) = sent_by rest
sent_by (got b written ∷ rest) = b ++ sent_by rest

-- What is echoed and what waits, with a rest that is lost, makes up what was sent.
abbrev pub Prefix : Bytes → Bytes → Type 0
Prefix s t = (r : Bytes) × (t ≡ s ++ r)

-- One turn of the loop moves bytes from what waits to what is echoed.
turn_keeps :
    (n : ℕ) (e w b t : Bytes)
    → e ++ (w ++ (b ++ t)) ≡ (e ++ take n (w ++ b)) ++ (drop n (w ++ b) ++ t)
turn_keeps n e w b t = sym (
    append_assoc e (take n (w ++ b)) (drop n (w ++ b) ++ t)
    ∙ ap (λ s. e ++ s)
        (sym (append_assoc (take n (w ++ b)) (drop n (w ++ b)) t)
          ∙ ap (λ s. s ++ t) (take-append-drop n (w ++ b))
          ∙ append_assoc w b t))

abbrev pub all_written : List Read → Bool
all_written [] = true
all_written (failed ∷ rest) = false
all_written (got b written ∷ rest) = elim written [ none ↦ all_written rest | some n ↦ false ]

-- As long as nothing fails, the server still reads, and what it has echoed and what waits to be read is
-- what the client has sent.
pub echo_stream_running :
    (reads : List Read) (c : Connection)
    → all_written reads ≡ true
    → let (c', end) = echo_stream c reads in
      (c'.echoed ++ c'.waiting ≡ c.echoed ++ (c.waiting ++ sent_by reads)) × (end ≡ running)
unfolding echo_stream sent_by exchange
echo_stream_running [] c h = (ap (λ s. c.echoed ++ s) (sym (append-nil c.waiting)), refl)
echo_stream_running (failed ∷ rest) c h = cc
echo_stream_running (got b (some n) ∷ rest) c h = cc
echo_stream_running (got b none ∷ rest) c h =
    let (f, g) = echo_stream_running rest (exchange b none c).0 h in
    (f ∙ sym (turn_keeps buffer_size c.echoed c.waiting b (sent_by rest)), g)

-- A loop that has ended has closed its connection.
pub echo_stream_closes :
    (reads : List Read) (c : Connection)
    → (echo_stream c reads).1 ≢ running
    → (echo_stream c reads).0.closed ≡ true
unfolding echo_stream close exchange
echo_stream_closes [] c h = absurd (h refl)
echo_stream_closes (failed ∷ rest) c h = refl
echo_stream_closes (got b (some n) ∷ rest) c h = refl
echo_stream_closes (got b none ∷ rest) c h = echo_stream_closes rest _ h

pub reads_of : List (Bool × Read) → List Read
reads_of [] = []
reads_of ((set, r) ∷ rest) = r ∷ reads_of rest

abbrev pub all_set : List (Bool × Read) → Bool
all_set [] = true
all_set ((set, r) ∷ rest) = set && all_set rest

-- Without a maximal idle time, and with one as long as every deadline can be set, a connection of chapter11
-- is echoed as one of chapter7.
pub echo_idle-echo_stream :
    (limited : Bool) (steps : List (Bool × Read)) (c : Connection)
    → (limited && not (all_set steps)) ≡ false
    → echo_idle limited c steps ≡ echo_stream c (reads_of steps)
unfolding echo_idle echo_stream reads_of exchange
echo_idle-echo_stream limited [] c h = refl
echo_idle-echo_stream false ((set, failed) ∷ rest) c h = refl
echo_idle-echo_stream true ((true, failed) ∷ rest) c h = refl
echo_idle-echo_stream true ((false, failed) ∷ rest) c h = cc
echo_idle-echo_stream false ((set, got b none) ∷ rest) c h = echo_idle-echo_stream false rest _ h
echo_idle-echo_stream false ((set, got b (some n)) ∷ rest) c h = refl
echo_idle-echo_stream true ((true, got b none) ∷ rest) c h = echo_idle-echo_stream true rest _ h
echo_idle-echo_stream true ((true, got b (some n)) ∷ rest) c h = refl
echo_idle-echo_stream true ((false, got b written) ∷ rest) c h = cc

-- A datagram that the buffer holds.
abbrev pub IsWhole : Packet → Type 0
IsWhole lost = ⊥
IsWhole (packet addr d written) = (length d ≤ buffer_size) × (written ≡ true)

pub replies : List Packet → List (Bytes × Bytes)
replies [] = []
replies (lost ∷ rest) = []
replies (packet addr d written ∷ rest) = (addr, d) ∷ replies rest

-- Each datagram of at most 1024 bytes is sent back as it came, to the address that it came from, in order.
pub echo_packets-replies :
    (ps : List Packet) → All IsWhole ps → echo_packets ps ≡ (replies ps, running)
unfolding echo_packets replies
echo_packets-replies [] h = refl
echo_packets-replies (lost ∷ rest) h = absurd h.0
echo_packets-replies (packet addr d written ∷ rest) h =
    rw (h.0.1, echo_packets-replies rest h.1, take_of_le buffer_size d h.0.0) refl
