-- ===== src/Tftp/Server/Requests.antt =====
-- chapter6/server.go: which datagrams `Serve` starts a transfer for.
use networking_in_go.Go.Binary.{put_u16}
use mathlib.Core.Option.{some-ne-none}
use networking_in_go.Prelude.{
  ◌-◌, ◌≤◌, ◌<◌, false, List, [], ◌∷◌, ◌++◌, ◌≡◌, ◌≢◌, refl, sym, ap, ◌∙◌, inl, inr, arith, Option,
  none, some, Option-cases, Bytes, replicate, length, take_of_le, drop-replicate, ap₂, append_assoc,
  suc,
}
use networking_in_go.Tftp.Handler.{read_into}
use networking_in_go.Tftp.Packet.{datagram_size, PacketError, op_rrq, invalid_rrq}
use networking_in_go.Tftp.ReadReq
use networking_in_go.Tftp.ReadReq.{ReadReq}
use networking_in_go.Tftp.ReadReq.Accepts.{
  IsRequest, IsField, IsOctet, ReadReq-unmarshal_complete, ReadReq-unmarshal_sound,
  unmarshal_unterminated,
}
use networking_in_go.Tftp.Server.{
  Server, Incoming, read_failed, datagram_from, Job, receive_buffer, start_job, serve_loop, serve,
  serve_payload, with_defaults,
}

abbrev no_request : ReadReq
no_request = record { filename = []; mode = [] }

-- The transfer for one datagram, read on its own.
pub job_of : Bytes → Bytes → List Job
unfolding start_job
job_of addr d = start_job addr (ReadReq.unmarshal no_request (receive_buffer d)) []

-- The transfers for the datagrams before the first failed read.
pub jobs_of : List Incoming → List Job
jobs_of [] = []
jobs_of (read_failed ∷ rest) = []
jobs_of (datagram_from addr d ∷ rest) = job_of addr d ++ jobs_of rest

-- What a packet is read as does not depend on what the receiver held.
unmarshal_any :
    (q q' : ReadReq) (p : Bytes)
    → (ReadReq.unmarshal q p).1 ≡ none
    → ReadReq.unmarshal q p ≡ ReadReq.unmarshal q' p
unmarshal_any q q' p h =
    let (f, m, rest, r) = ReadReq-unmarshal_sound q p h in
    ReadReq-unmarshal_complete q f m rest r ∙ sym (ReadReq-unmarshal_complete q' f m rest r)

start_job_refused :
    (addr : Bytes) (r : ReadReq × Option PacketError) (jobs : List Job) {e : PacketError}
    → r.1 ≡ some e
    → start_job addr r jobs ≡ jobs
unfolding start_job
start_job_refused addr r jobs h = rw h

start_job_accepted :
    (addr : Bytes) (r : ReadReq × Option PacketError) (jobs : List Job)
    → r.1 ≡ none
    → start_job addr r jobs ≡ (addr, r.0) ∷ jobs
unfolding start_job
start_job_accepted addr r jobs h = rw h

-- Whether a packet is read does not depend on what the receiver held either.
unmarshal_refused :
    (q q' : ReadReq) (p : Bytes) {e : PacketError}
    → (ReadReq.unmarshal q p).1 ≡ some e
    → (e' : PacketError) × ((ReadReq.unmarshal q' p).1 ≡ some e')
unmarshal_refused q q' p {e} h = elim (Option-cases (ReadReq.unmarshal q' p).1) [
  | inl n ↦ absurd (
      some-ne-none e
        (sym h ∙ ap (λ (r : ReadReq × Option PacketError). r.1) (sym (unmarshal_any q' q p n)) ∙ n))
  | inr x ↦ x
]

start_job_any :
    (q : ReadReq) (addr d : Bytes) (jobs : List Job)
    → start_job addr (ReadReq.unmarshal q (receive_buffer d)) jobs ≡ job_of addr d ++ jobs
unfolding job_of
start_job_any q addr d jobs = elim (Option-cases (ReadReq.unmarshal q (receive_buffer d)).1) [
  | inl n ↦ rw (unmarshal_any q no_request (receive_buffer d) n) (
      let n' = rw (unmarshal_any q no_request (receive_buffer d) n) at n in
      rw (
        start_job_accepted addr (ReadReq.unmarshal no_request (receive_buffer d)) jobs n',
        start_job_accepted addr (ReadReq.unmarshal no_request (receive_buffer d)) [] n',
      ))
  | inr (e, h) ↦
      let (e', h') = unmarshal_refused q no_request (receive_buffer d) h in
      start_job_refused addr _ jobs h
      ∙ sym (
          ap (λ l. l ++ jobs)
            (start_job_refused addr (ReadReq.unmarshal no_request (receive_buffer d)) [] h'))
]

serve_loop-jobs_of : (input : List Incoming) (q : ReadReq) → (serve_loop q input).0 ≡ jobs_of input
unfolding serve_loop jobs_of
serve_loop-jobs_of [] q = refl
serve_loop-jobs_of (read_failed ∷ rest) q = refl
serve_loop-jobs_of (datagram_from addr d ∷ rest) q =
    start_job_any q addr d _
    ∙ ap (λ l. job_of addr d ++ l)
        (serve_loop-jobs_of rest (ReadReq.unmarshal q (receive_buffer d)).0)

-- `Serve` starts one transfer for each datagram, in their order, that is read as a request on its
-- own, up to the first failed read: though the rounds share one request variable, what it held
-- before does not show.
pub serve-jobs_of :
    (s : Server) {p : Bytes} (input : List Incoming)
    → s.payload ≡ some p
    → (serve false s input).1 ≡ jobs_of input
unfolding serve serve_payload
serve-jobs_of s input h = rw h (serve_loop-jobs_of input no_request)

-- `Serve` leaves a server that has a payload with a number of retries and a timeout that are not 0,
-- the retries its own if they were not 0, and with its payload.
pub serve-retries :
    (s : Server) {p : Bytes} (input : List Incoming)
    → s.payload ≡ some p
    → let s' = (serve false s input).0 in
      (1 ≤ s'.retries)
      × (1 ≤ s'.timeout)
      × (s.retries ≢ 0 → s'.retries ≡ s.retries)
      × (s'.payload ≡ s.payload)
unfolding serve serve_payload with_defaults
serve-retries s input h = rw h (ground arith, ground arith, λ ne. ground arith, refl)

receive_buffer_lem :
    (d : Bytes)
    → length d ≤ datagram_size
    → receive_buffer d ≡ d ++ replicate (datagram_size - length d) 0
unfolding receive_buffer read_into
receive_buffer_lem d h =
    ap₂ ◌++◌ (take_of_le datagram_size d h) (drop-replicate (length d) datagram_size 0)

-- The unused byte behind an unterminated mode ends it.
receive_unterminated :
    (f m : Bytes)
    → let d = put_u16 op_rrq ++ (f ++ 0 ∷ m) in
      length d < datagram_size
      → receive_buffer d
        ≡ put_u16 op_rrq ++ (f ++ 0 ∷ (m ++ 0 ∷ replicate (datagram_size - 1 - length d) 0))
receive_unterminated f m lt =
    let d = put_u16 op_rrq ++ (f ++ 0 ∷ m) in
    let e : datagram_size - length d ≡ suc (datagram_size - 1 - length d) = omega arith in
    receive_buffer_lem d (omega arith) ∙ ap (λ n. d ++ replicate n 0) e ∙ simp append_assoc

-- A request without its last zero byte, such as one that was cut off, is refused by `UnmarshalBinary`
-- and served all the same: `Serve` hands on the whole buffer, whose unused bytes are zero. This
-- holds of every such request that is shorter than the buffer, whatever comes behind it.
pub serve_unterminated :
    (s : Server) {p : Bytes} (q : ReadReq) (addr f m : Bytes) (input : List Incoming)
    → s.payload ≡ some p
    → IsField f
    → IsField m
    → IsOctet m
    → let d = put_u16 op_rrq ++ (f ++ 0 ∷ m) in
      length d < datagram_size
      → ((ReadReq.unmarshal q d).1 ≡ some invalid_rrq)
        × ((serve false s (datagram_from addr d ∷ input)).1
            ≡ (addr, record { filename = f; mode = m }) ∷ (serve false s input).1)
unfolding job_of jobs_of
serve_unterminated s q addr f m input h hf hm o lt =
    let d = put_u16 op_rrq ++ (f ++ 0 ∷ m) in
    let r : IsRequest (receive_buffer d) f m (replicate (datagram_size - 1 - length d) 0) = record {
      spells = receive_unterminated f m lt;
      name = hf;
      mode = hm;
      octets = o;
    } in
    let e =
      ReadReq-unmarshal_complete no_request f m (replicate (datagram_size - 1 - length d) 0) r in
    (
      unmarshal_unterminated q f m hf hm.1,
      serve-jobs_of s (datagram_from addr d ∷ input) h
          ∙ ap (λ l. l ++ jobs_of input)
              (ap (λ r. start_job addr r []) e
                ∙ start_job_accepted addr (record { filename = f; mode = m }, none) [] refl)
          ∙ ap (λ l. (addr, record { filename = f; mode = m }) ∷ l) (sym (serve-jobs_of s input h)),
    )
