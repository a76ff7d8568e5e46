-- ===== src/Http/Wide.antt =====
-- chapter13/wide.go: wideResponseWriter, which notes the status and the length of a response for the
-- log. What the handler does with the writer is a list of calls.
pub mod Log
pub mod Event
use networking_in_go.Http.Exchange.{Exchange, write_header, write}
use networking_in_go.Prelude.{
  Bytes, length, ◌==◌, if◌then◌else◌, none, some, [], ◌∷◌, true, false, refl, inl, inr, Option,
  List, ◌≡◌, Bool, ℕ, ◌++◌, take, ◌+◌,
}

pub data Call : Type 0 where
  header_call : ℕ → Call
  -- The bytes, of which the connection takes so many.
  write_call : Bytes → ℕ → Call

pub record WideWriter : Type 0 where
  pub inner : Exchange
  pub length : ℕ
  pub status : ℕ

unfoldable pub call : WideWriter → Call → WideWriter
call w (header_call status) = record w { inner = write_header status w.inner; status = status }
call w (write_call b room) = record w {
  inner = write (take room b) w.inner;
  length = w.length + length (take room b);
  status = if w.status == 0 then 200 else w.status;
}

unfoldable pub calls : WideWriter → List Call → WideWriter
unfolding call
calls w [] = w
calls w (c ∷ cs) = calls (call w c) cs

-- The event that is logged: the status code and the response's length.
unfoldable pub wide_event_log : Exchange → List Call → (ℕ × ℕ) × Exchange
unfolding calls
wide_event_log x cs =
    let w = calls (record { inner = x; length = 0; status = 0 }) cs in
    ((w.status, w.length), w.inner)
