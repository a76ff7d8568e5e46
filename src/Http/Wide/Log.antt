-- ===== src/Http/Wide/Log.antt =====
-- chapter13/wide.go: the logged event against the response.
use networking_in_go.Http.Exchange.{Exchange, write_header, write, status_of, first_head, Head}
use networking_in_go.Http.Wide.{
  Call, header_call, write_call, WideWriter, call, calls, wide_event_log,
}
use networking_in_go.Prelude.{
  length, arith, All, length-append, take, none, some, [], ◌∷◌, refl, List, ◌≡◌, ℕ, ◌≤◌, ◌∙◌, ◌+◌,
}

call_length :
    (w : WideWriter) (c : Call)
    → length (call w c).inner.body + w.length ≡ length w.inner.body + (call w c).length
unfolding call write write_header
call_length w (header_call s) = refl
call_length w (write_call b room) = omega (arith, length-append w.inner.body (take room b))

calls_length :
    (cs : List Call) (w : WideWriter)
    → length (calls w cs).inner.body + w.length ≡ length w.inner.body + (calls w cs).length
unfolding calls
calls_length [] w = refl
calls_length (c ∷ cs) w = omega (arith, calls_length cs (call w c), call_length w c)

-- Whatever calls the handler makes, the length that is logged is the number of bytes that they added to
-- the response, those that were not taken left out.
pub wide_event_log_length :
    (x : Exchange) (cs : List Call)
    → let ((status, n), y) = wide_event_log x cs in length y.body ≡ length x.body + n
unfolding wide_event_log
wide_event_log_length x cs =
    omega (arith, calls_length cs (record { inner = x; length = 0; status = 0 }))

abbrev pub IsWrite : Call → Type 0
IsWrite (header_call s) = ⊥
IsWrite (write_call b room) = Unit

-- A status that ends a response, not an informational one.
abbrev pub IsValid : Call → Type 0
IsValid (header_call s) = 200 ≤ s
IsValid (write_call b room) = Unit

-- Writes change neither the status that was sent nor the one that is noted.
calls_writes :
    (cs : List Call) (w : WideWriter) (h : Head)
    → All IsWrite cs
    → w.inner.head ≡ some h
    → 1 ≤ w.status
    → ((calls w cs).inner.head ≡ some h) × ((calls w cs).status ≡ w.status)
unfolding calls call write write_header first_head
calls_writes [] w h a e s = (e, refl)
calls_writes (header_call t ∷ cs) w h a e s = absurd a.0
calls_writes (write_call b room ∷ cs) w h a e s =
    let (f, g) = calls_writes cs (call w (write_call b room)) h a.1 (rw e refl) (ground arith) in
    (f, g ∙ ground arith)

-- If nothing was sent before, the handler calls the writer, and none of its calls but the first is
-- a WriteHeader, then the status that is logged is the one that the client sees. Statuses are 200
-- or more.
pub wide_event_log_status :
    (x : Exchange) (c : Call) (cs : List Call)
    → x.head ≡ none
    → IsValid c
    → All IsWrite cs
    → let ((status, n), y) = wide_event_log x (c ∷ cs) in status ≡ status_of y.head
unfolding wide_event_log calls call write write_header first_head
wide_event_log_status x (header_call s) cs e v a =
    let (f, g) =
      calls_writes cs (call (record { inner = x; length = 0; status = 0 }) (header_call s))
        (record { status = s; fields = x.header }) a (rw e refl) (ground arith) in
    rw f g
wide_event_log_status x (write_call b room) cs e v a =
    let (f, g) =
      calls_writes cs (call (record { inner = x; length = 0; status = 0 }) (write_call b room))
        (record { status = 200; fields = x.header }) a (rw e refl) (ground arith) in
    rw f g

-- A handler that calls WriteHeader twice, and then only writes, is logged with the second status,
-- and its client sees the first; one that makes no call is logged with the status 0, and its client
-- sees 200. Nothing was sent before, and the two statuses are 200 or more.
pub wide_event_log_differs :
    (x : Exchange) (s t : ℕ) (cs : List Call)
    → x.head ≡ none
    → 200 ≤ s
    → 200 ≤ t
    → All IsWrite cs
    → let ((status, n), y) = wide_event_log x (header_call s ∷ header_call t ∷ cs) in
      let ((status', n'), y') = wide_event_log x [] in
      ((status ≡ t) × (status_of y.head ≡ s)) × ((status' ≡ 0) × (status_of y'.head ≡ 200))
unfolding wide_event_log calls call write write_header first_head
wide_event_log_differs x s t cs e u v a =
    let w =
      call (call (record { inner = x; length = 0; status = 0 }) (header_call s)) (header_call t) in
    let (f, g) =
      calls_writes cs w (record { status = s; fields = x.header }) a (rw e refl) (ground arith) in
    ((g, rw f refl), (refl, rw e refl))
