-- ===== src/Http/Wide/Event.antt =====
-- chapter13/wide.go: the whole event of WideEventLog, with what it has of the request.
use networking_in_go.Go.Fields.{Free}
use networking_in_go.Go.HostPort.{split_host, IsPort, split_host-plain, split_host-bracketed}
use networking_in_go.Http.Exchange.{Exchange}
use networking_in_go.Http.Wide.{Call, wide_event_log}
use networking_in_go.Prelude.{
  ℕ, ℤ, List, [], ◌∷◌, ◌++◌, Option, none, some, Bytes, ◌≡◌, refl, ap, inl, inr, ◌∙◌, ◌⊎◌,
}

-- What net/http gives of a request beside its method and its path.
pub record Request : Type 0 where
  pub content_length : ℤ
  pub proto : Bytes
  pub remote_addr : Bytes
  pub request_uri : Bytes
  pub user_agent : Bytes

pub record Event : Type 0 where
  pub status_code : ℕ
  pub response_length : ℕ
  pub content_length : ℤ
  pub method : Bytes
  pub proto : Bytes
  pub remote_addr : Bytes
  pub uri : Bytes
  pub user_agent : Bytes

-- `addr, _, _ := net.SplitHostPort(…)`: empty where there is an error.
unfoldable pub or_empty : Option Bytes → Bytes
or_empty none = []
or_empty (some s) = s

-- `method` is read from the request behind the handler, which does not change it.
unfoldable pub wide_event : Request → Exchange → List Call → Event × Exchange
unfolding or_empty
wide_event r x cs =
    let ((status, length), y) = wide_event_log x cs in
    (
      record {
        status_code = status;
        response_length = length;
        content_length = r.content_length;
        method = x.method;
        proto = r.proto;
        remote_addr = or_empty (split_host r.remote_addr);
        uri = r.request_uri;
        user_agent = r.user_agent;
      },
      y,
    )

-- The address in the event is the host of the client, without its port and, for IPv6, without the brackets; the
-- handler's response is not changed by what is logged.
pub wide_event-remote_addr :
    (r : Request) (x : Exchange) (cs : List Call) (host port : Bytes)
    → IsPort port
    → ((IsPort host × (r.remote_addr ≡ host ++ b':' ∷ port))
        ⊎ (Free b'[' host
            × Free b']' host
            × (r.remote_addr ≡ (b'[' ∷ (host ++ b']' ∷ [])) ++ b':' ∷ port)))
    → let (e, y) = wide_event r x cs in (e.remote_addr ≡ host) × (y ≡ (wide_event_log x cs).1)
unfolding wide_event or_empty
wide_event-remote_addr r x cs host port k (inl (h, e)) =
    (ap (λ s. or_empty (split_host s)) e ∙ ap or_empty (split_host-plain host port h k), refl)
wide_event-remote_addr r x cs host port k (inr (h, h', e)) = (
  ap (λ s. or_empty (split_host s)) e ∙ ap or_empty (split_host-bracketed host port h h' k),
  refl,
)
