-- ===== src/Http/Exchange.antt =====
-- What the handlers use of net/http: one request and the response to it. The first `WriteHeader`
-- sends the status with the headers as they are then; a `Write` before any sends 200.
-- Statuses are 200 or more: an informational one, which ends no response, is not modelled.
use networking_in_go.Prelude.{
  ℕ, Bool, true, List, [], ◌∷◌, ◌++◌, ◌≡◌, arith, Option, none, some, Bytes, codes, equal,
  if◌then◌else◌,
}

abbrev pub Header : Type 0
Header = List (Bytes × List Bytes)

-- What was sent of the status line and the headers.
pub record Head : Type 0 where
  pub status : ℕ
  pub fields : Header

pub record Exchange : Type 0 where
  pub method : Bytes
  pub path : Bytes
  pub unread : Bytes  -- of the request's body
  pub body_fails : Bool  -- whether reading it ends in an error
  pub closed : Bool
  pub header : Header
  pub head : Option Head
  pub body : Bytes  -- of the response

-- An `http.Handler`.
abbrev pub Handler : Type 0
Handler = Exchange → Exchange

-- `Header.Set` and `Header.Add`, for keys in their canonical form.
unfoldable pub set_field : Bytes → Bytes → Header → Header
set_field k v [] = (k, v ∷ []) ∷ []
set_field k v ((j, vs) ∷ h) = if equal j k then (k, v ∷ []) ∷ h else (j, vs) ∷ set_field k v h

unfoldable pub add_field : Bytes → Bytes → Header → Header
add_field k v [] = (k, v ∷ []) ∷ []
add_field k v ((j, vs) ∷ h) = if equal j k then (j, vs ++ v ∷ []) ∷ h else (j, vs) ∷ add_field k v h

unfoldable pub first_head : ℕ → Header → Option Head → Option Head
first_head status h none = some (record { status = status; fields = h })
first_head status h (some sent) = some sent

unfoldable pub write_header : ℕ → Exchange → Exchange
unfolding first_head
write_header status x = record x { head = first_head status x.header x.head }

unfoldable pub write : Bytes → Exchange → Exchange
unfolding write_header
write b x = let y = write_header 200 x in record y { body = y.body ++ b }

-- `http.Error`.
unfoldable pub http_error : Bytes → ℕ → Exchange → Exchange
http_error message status x =
    let h = set_field (codes "Content-Type") (codes "text/plain; charset=utf-8") x.header in
    let h' = set_field (codes "X-Content-Type-Options") (codes "nosniff") h in
    write (message ++ b'\n' ∷ []) (write_header status (record x { header = h' }))

-- `io.Copy(io.Discard, r.Body)` and `r.Body.Close()`.
unfoldable pub drain : Exchange → Exchange
drain x = record x { unread = []; closed = true }

-- `io.ReadAll(r.Body)`: the bytes, if there was no error.
unfoldable pub read_all : Exchange → Option Bytes × Exchange
read_all x = (if x.body_fails then none else some x.unread, record x { unread = [] })

-- The status that the client sees, once the handler has returned.
abbrev pub status_of : Option Head → ℕ
status_of none = 200
status_of (some h) = h.status

-- A response once its head was sent: later errors only add to the body.
pub http_error_late :
    (message : Bytes) (status : ℕ) (x : Exchange) {h : Head}
    → x.head ≡ some h
    → ((http_error message status x).head ≡ some h)
      × ((http_error message status x).body ≡ x.body ++ (message ++ b'\n' ∷ []))
unfolding http_error write write_header
http_error_late message status x e = ground arith

pub http_error_first :
    (message : Bytes) (status : ℕ) (x : Exchange)
    → x.head ≡ none
    → (status_of (http_error message status x).head ≡ status)
      × ((http_error message status x).body ≡ x.body ++ (message ++ b'\n' ∷ []))
unfolding http_error write write_header
http_error_first message status x e = ground arith
