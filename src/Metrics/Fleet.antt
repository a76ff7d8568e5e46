-- ===== src/Metrics/Fleet.antt =====
-- chapter13/instrument/server.go: the clients that `main` starts, and the requests that are counted.
use networking_in_go.Metrics.{
  state_new, state_active, state_idle, state_hijacked, state_closed, Call, changed, handled,
  metrics, conn_state_metrics, hello_handler, Metrics, ConnState,
}
use native.Mathlib.Nat.{suc-mul}
use networking_in_go.Prelude.{
  All, length, arith, ◌*◌, replicate, [], ◌∷◌, true, false, refl, List, ◌≡◌, ℕ, ◌++◌, ◌+◌, zero,
  suc, ap, sym, ◌∙◌,
}

-- The numbers of clients and of requests that each makes.
abbrev pub clients : ℕ
clients = 500

abbrev pub gets : ℕ
gets = 100

-- The calls that each connection's server goroutine makes come in any order among those of the others.
pub data Shuffle : List (List Call) → List Call → Type 0 where
  none_left : (n : ℕ) → Shuffle (replicate n []) []
  next :
      {calls : List Call}
      → (before after : List (List Call)) (c : Call) (rest : List Call)
      → Shuffle (before ++ rest ∷ after) calls
      → Shuffle (before ++ (c ∷ rest) ∷ after) (c ∷ calls)

-- How many requests are handled.
unfoldable pub requests_in : List Call → ℕ
requests_in [] = 0
requests_in (changed c s ∷ calls) = requests_in calls
requests_in (handled written ∷ calls) = requests_in calls + 1

unfoldable pub total_requests : List (List Call) → ℕ
unfolding requests_in
total_requests [] = 0
total_requests (t ∷ traces) = requests_in t + total_requests traces

conn_state_requests : (s : ConnState) (m : Metrics) → (conn_state_metrics s m).requests ≡ m.requests
unfolding conn_state_metrics
conn_state_requests state_new m = refl
conn_state_requests state_active m = refl
conn_state_requests state_idle m = refl
conn_state_requests state_hijacked m = refl
conn_state_requests state_closed m = refl

metrics-requests_in : (calls : List Call) → (metrics calls).requests ≡ requests_in calls
unfolding metrics requests_in hello_handler
metrics-requests_in [] = refl
metrics-requests_in (changed c s ∷ calls) =
    conn_state_requests s (metrics calls) ∙ metrics-requests_in calls
metrics-requests_in (handled true ∷ calls) = omega (arith, metrics-requests_in calls)
metrics-requests_in (handled false ∷ calls) = omega (arith, metrics-requests_in calls)

total_append :
    (before after : List (List Call))
    → total_requests (before ++ after) ≡ total_requests before + total_requests after
unfolding total_requests
total_append [] after = omega arith
total_append (t ∷ before) after = omega (arith, total_append before after)

total_none : (n : ℕ) → total_requests (replicate n []) ≡ 0
unfolding total_requests requests_in
total_none zero = refl
total_none (suc n) = omega (arith, total_none n)

call_requests :
    (c : Call) (rest : List Call) → requests_in (c ∷ rest) ≡ requests_in (c ∷ []) + requests_in rest
unfolding requests_in
call_requests (changed i s) rest = omega arith
call_requests (handled written) rest = omega arith

total_next :
    (before after : List (List Call)) (c : Call) (rest : List Call)
    → total_requests (before ++ (c ∷ rest) ∷ after)
      ≡ requests_in (c ∷ []) + total_requests (before ++ rest ∷ after)
unfolding total_requests
total_next before after c rest = omega (
  arith,
  total_append before ((c ∷ rest) ∷ after),
  total_append before (rest ∷ after),
  call_requests c rest,
)

requests_in-Shuffle :
    {traces : List (List Call)} {calls : List Call}
    → Shuffle traces calls
    → requests_in calls ≡ total_requests traces
unfolding requests_in
requests_in-Shuffle (none_left n) = sym (total_none n)
requests_in-Shuffle (next {calls} before after c rest q) =
    omega (arith, call_requests c calls, total_next before after c rest, requests_in-Shuffle q)

total_same :
    (n : ℕ) (traces : List (List Call))
    → All (λ t. requests_in t ≡ n) traces
    → total_requests traces ≡ length traces * n
unfolding total_requests
total_same n [] h = omega arith
total_same n (t ∷ traces) h = omega (arith, h.0, total_same n traces h.1, suc-mul (length traces) n)

-- However the connections of the clients take turns, the counter of requests, once all are done, is their
-- number times the requests that each makes.
pub metrics_fleet :
    {traces : List (List Call)} {calls : List Call} (n : ℕ)
    → Shuffle traces calls
    → All (λ t. requests_in t ≡ n) traces
    → (metrics calls).requests ≡ length traces * n
metrics_fleet {traces} {calls} n q h =
    metrics-requests_in calls ∙ requests_in-Shuffle q ∙ total_same n traces h

-- The clients of `main` make fifty thousand requests.
main_requests :
    {traces : List (List Call)} {calls : List Call}
    → Shuffle traces calls
    → length traces ≡ clients
    → All (λ t. requests_in t ≡ gets) traces
    → (metrics calls).requests ≡ 50_000
main_requests q e h = metrics_fleet gets q h ∙ ap (λ n. n * gets) e
