-- ===== src/Tests/Transfer.antt =====
-- Tests of `handle`.
use networking_in_go.Tftp.Server.{Server}
use networking_in_go.Tftp.Handler.Client.{client, start}
use networking_in_go.Prelude.{
  [], ◌∷◌, ◌++◌, ◌≡◌, ◌≢◌, refl, arith, codes, Bytes, List, replicate, true, inl, inr,
}
use networking_in_go.Go.Binary.{put_u16, get_u16}
use networking_in_go.Go.Text.{read_string, trim_right}
use networking_in_go.Tftp.Ack
use networking_in_go.Tftp.Data
use networking_in_go.Tftp.Err
use networking_in_go.Tftp.Handler.{
  Attempt, written, timeout, received, waiting, completed, exhausted, client_error, handle,
  read_into, is_nil,
}
use networking_in_go.Tftp.Handler.Invariant.{datagram}
use networking_in_go.Tftp.Handler.Received.{Partial, handle-Partial}
use networking_in_go.Tftp.Handler.Runs.{InRuns, handle-InRuns}
use networking_in_go.Tftp.Handler.Bounds.{handle_returns}
use networking_in_go.Tftp.Handler.Progress.{Nuisance, lost, stale, script, handle_completes}

abbrev payload : Bytes
payload = replicate 600 7

-- Two blocks: a lost packet and an acknowledgment of another block before the first is acknowledged.
abbrev trouble : List (List Nuisance)
trouble = [] ∷ []

abbrev rounds : List Attempt
rounds = script 0 (lost ∷ stale 9 ∷ []) trouble

completes : (handle true 3 payload rounds).1 ≡ completed
unfolding handle Data.marshal Ack.unmarshal Ack.marshal get_u16 put_u16 read_into is_nil
completes = refl

gives_up : (handle true 2 payload rounds).1 ≡ exhausted
unfolding handle Data.marshal Ack.unmarshal Ack.marshal Err.unmarshal get_u16 put_u16 read_into
    is_nil
gives_up = refl

client_ends :
    (handle true 2 payload (written (received (0 ∷ 5 ∷ 0 ∷ 3 ∷ codes "full" ++ 0 ∷ [])) ∷ [])).1
    ≡ client_error (codes "full")
unfolding handle Data.marshal Ack.unmarshal Err.unmarshal get_u16 put_u16 read_into is_nil
    read_string trim_right
client_ends = refl

-- The first datagram comes twice, and the second before it and after it.
handle-Partial_example :
    let (s, o) = handle true 3 payload rounds in
    let p = datagram payload 0 in
    let q = datagram payload 1 in
    Partial payload (client start (q ∷ p ∷ p ∷ q ∷ []))
    × (o ≡ completed
        → (client start (q ∷ p ∷ p ∷ q ∷ [])).expected ≡ Data.next_block s.ack_pkt
        → (client start (q ∷ p ∷ p ∷ q ∷ [])).got ≡ payload)
    × (o ≡ completed → (client start s.sent).got ≡ payload)
unfolding handle Data.marshal Ack.unmarshal Ack.marshal get_u16 put_u16 read_into is_nil datagram
handle-Partial_example =
    handle-Partial true 3 payload rounds
      (datagram payload 1 ∷ datagram payload 0 ∷ datagram payload 0 ∷ datagram payload 1 ∷ [])
      (omega arith)
      (inr (inr (inr (inl refl))), (inl refl, (inl refl, (inr (inr (inr (inl refl))), tt))))

handle-InRuns_example : InRuns payload 3 (handle true 3 payload rounds).0.sent
handle-InRuns_example = handle-InRuns 3 payload rounds (omega arith)

handle_returns_example : (handle true 2 payload (replicate 4 (written timeout))).1 ≢ waiting
handle_returns_example =
    handle_returns 2 payload (replicate 4 (written timeout)) (omega arith) (omega arith)

handle_completes_example : (handle true 3 payload rounds).1 ≡ completed
handle_completes_example =
    handle_completes 3 payload (lost ∷ stale 9 ∷ []) trouble (ground arith) refl
