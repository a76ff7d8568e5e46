-- ===== src/Echo.antt =====
-- The echo servers: chapter5/echo.go, chapter7/server.go and the connections of chapter11/server.go. What
-- the network does is a list, one entry for each time around the loop.
pub mod Answers
pub mod Servers
use networking_in_go.Prelude.{
  Bytes, take, if◌then◌else◌, none, some, [], ◌∷◌, true, false, refl, inl, inr, Option, List, ◌≡◌,
  Bool, ℕ, ◌++◌, ◌+◌, ◌-◌, ◌≤◌, ◌<◌, zero, suc, ap, sym, ◌∙◌, drop, ◌&&◌, not,
}

-- `make([]byte, 1024)`.
abbrev pub buffer_size : ℕ
buffer_size = 1024

-- Why a loop ended. Running: it reads again.
pub data End : Type 0 where
  running deadline_failed read_failed write_failed : End

-- A stream, at each read: the bytes that have come, of which the buffer takes a part, and whether the
-- write that follows fails, after how many bytes; or an error.
pub data Read : Type 0 where
  failed : Read
  got : Bytes → Option ℕ → Read

-- The bytes that wait, as a read leaves them for the next one.
pub record Connection : Type 0 where
  pub waiting : Bytes
  pub echoed : Bytes
  pub closed : Bool

-- `conn.Read(buf)` and `conn.Write(buf[:n])`, with what has come since.
-- A write that fails has sent some of the bytes.
exchange : Bytes → Option ℕ → Connection → Connection × Option End
exchange b written c =
    let waiting = c.waiting ++ b in
    let rest = record c { waiting = drop buffer_size waiting } in
    elim written [
      | none ↦ (record rest { echoed = c.echoed ++ take buffer_size waiting }, none)
      | some n ↦ (
        record rest { echoed = c.echoed ++ take n (take buffer_size waiting) },
        some write_failed,
      )
    ]

-- `defer func() { conn.Close() }()`.
close : Connection → End → Connection × End
close c e = (record c { closed = true }, e)

unfoldable pub echo_stream : Connection → List Read → Connection × End
unfolding exchange close
echo_stream c [] = (c, running)
echo_stream c (failed ∷ rest) = close c read_failed
echo_stream c (got b written ∷ rest) =
    let (c', e) = exchange b written c in
    elim e [ none ↦ echo_stream c' rest | some end ↦ close c' end ]

-- Chapter11 sets a deadline before each read, if there is a maximal idle time; the list says whether that
-- succeeds.
unfoldable pub echo_idle : Bool → Connection → List (Bool × Read) → Connection × End
unfolding exchange close
echo_idle limited c [] = (c, running)
echo_idle limited c ((set, r) ∷ rest) = elim (limited && not set) [
  | true ↦ close c deadline_failed
  | false ↦ elim r [
    | failed ↦ close c read_failed
    | got b written ↦
        let (c', e) = exchange b written c in
        elim e [ none ↦ echo_idle limited c' rest | some end ↦ close c' end ]
  ]
]

-- A packet connection, at each read: a datagram with its sender, and whether the answer can be sent.
pub data Packet : Type 0 where
  lost : Packet
  packet : Bytes → Bytes → Bool → Packet

-- The answers, with whom they go to. A read takes one datagram, and what is behind the buffer is lost.
unfoldable pub echo_packets : List Packet → List (Bytes × Bytes) × End
echo_packets [] = ([], running)
echo_packets (lost ∷ rest) = ([], read_failed)
echo_packets (packet addr d written ∷ rest) =
    let (sent, end) = echo_packets rest in
    if written then ((addr, take buffer_size d) ∷ sent, end) else ([], write_failed)
