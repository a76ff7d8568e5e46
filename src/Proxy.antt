-- ===== src/Proxy.antt =====
-- chapter4/proxy.go: proxyConn and proxy. What the two goroutines copy, and in what order, is a list of
-- steps. A write may fail, after some of its bytes.
pub mod Copies
use networking_in_go.Prelude.{
  Bytes, ◌&&◌, if◌then◌else◌, none, some, [], ◌∷◌, true, false, refl, inl, inr, Option, List, ◌≡◌,
  Bool, ℕ, ◌++◌, ◌+◌, ◌-◌, ◌≤◌, ◌<◌, zero, suc, ap, sym, ◌∙◌,
}

-- Bytes from the source; bytes from the destination; such bytes as a write takes before it fails; the end of
-- either, or an error at the source.
pub data Step : Type 0 where
  forward reply forward_cut reply_cut : Bytes → Step
  source_ends source_fails reply_ends : Step

-- What was written to the destination and to the source, and whether the goroutine still copies replies.
pub record Link : Type 0 where
  pub to_destination : Bytes
  pub to_source : Bytes
  pub replying : Bool

pub data End : Type 0 where
  dial_failed copying copied copy_failed : End

-- `io.Copy(connSrc, connDst)` in its goroutine.
unfoldable pub put_reply : Bytes → Link → Link
put_reply b l = if l.replying then record l { to_source = l.to_source ++ b } else l

unfoldable pub put_forward : Bytes → Link → Link
put_forward b l = record l { to_destination = l.to_destination ++ b }

-- `io.Copy(connSrc, connDst)` ends: its error is not looked at.
unfoldable pub end_replies : Link → Link
end_replies l = record l { replying = false }

-- Until `io.Copy(connDst, connSrc)` returns. When proxyConn returns it closes both connections, and the
-- goroutine's copy ends as well.
pub copy_until : Link → List Step → Link × End
unfolding put_reply put_forward end_replies
copy_until l [] = (l, copying)
copy_until l (forward b ∷ rest) = copy_until (put_forward b l) rest
copy_until l (reply b ∷ rest) = copy_until (put_reply b l) rest
copy_until l (source_ends ∷ rest) = (l, copied)
copy_until l (source_fails ∷ rest) = (l, copy_failed)
copy_until l (reply_ends ∷ rest) = copy_until (end_replies l) rest
copy_until l (forward_cut b ∷ rest) = (put_forward b l, copy_failed)
copy_until l (reply_cut b ∷ rest) = copy_until (end_replies (put_reply b l)) rest

-- The arguments are whether the source and the destination can be dialled.
unfoldable pub proxy_conn : Bool → Bool → List Step → Link × End
unfolding copy_until
proxy_conn source destination steps =
    let l : Link = record { to_destination = []; to_source = []; replying = true } in
    if source && destination then copy_until l steps else (l, dial_failed)

-- The goroutine that goes on after proxy has returned: proxy closes nothing.
pub copy_replies : Link → List Step → Link
unfolding put_reply end_replies
copy_replies l [] = l
copy_replies l (reply b ∷ rest) = copy_replies (put_reply b l) rest
copy_replies l (reply_ends ∷ rest) = copy_replies (end_replies l) rest
copy_replies l (reply_cut b ∷ rest) = copy_replies (end_replies (put_reply b l)) rest
copy_replies l (forward b ∷ rest) = copy_replies l rest
copy_replies l (forward_cut b ∷ rest) = copy_replies l rest
copy_replies l (source_ends ∷ rest) = copy_replies l rest
copy_replies l (source_fails ∷ rest) = copy_replies l rest

pub copy_on : Link → List Step → Link × End
unfolding copy_replies put_forward put_reply end_replies
copy_on l [] = (l, copying)
copy_on l (forward b ∷ rest) = copy_on (put_forward b l) rest
copy_on l (reply b ∷ rest) = copy_on (put_reply b l) rest
copy_on l (source_ends ∷ rest) = (copy_replies l rest, copied)
copy_on l (source_fails ∷ rest) = (copy_replies l rest, copy_failed)
copy_on l (reply_ends ∷ rest) = copy_on (end_replies l) rest
copy_on l (forward_cut b ∷ rest) = (copy_replies (put_forward b l) rest, copy_failed)
copy_on l (reply_cut b ∷ rest) = copy_on (end_replies (put_reply b l)) rest

-- The arguments are whether `from` and `to` are TCP connections.
unfoldable pub proxy : Bool → Bool → List Step → Link × End
unfolding copy_on
proxy from to steps =
    copy_on (record { to_destination = []; to_source = []; replying = from && to }) steps
