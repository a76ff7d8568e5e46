-- ===== src/Proxy/Copies.antt =====
-- chapter4/proxy.go: what the two proxies deliver.
use networking_in_go.Proxy.{
  Step, forward, reply, forward_cut, reply_cut, end_replies, source_ends, source_fails, reply_ends,
  Link, put_reply, put_forward, copy_until, proxy_conn, copy_replies, copy_on, proxy,
}
use mathlib.Core.List.{append-nil, []}
use networking_in_go.Prelude.{
  Bytes, append_assoc, ◌∷◌, true, false, refl, List, ◌≡◌, Bool, ◌++◌, sym, ◌∙◌,
}

-- The second one delivers to the source what the first one does, and maybe more behind it.
abbrev pub Extends : Link → Link → Type 0
Extends l l' =
    (l'.to_destination ≡ l.to_destination) × (r : Bytes) × (l'.to_source ≡ l.to_source ++ r)

put_reply-Extends :
    (b d s : Bytes) (k : Bool) (l' : Link)
    → Extends (put_reply b (record { to_destination = d; to_source = s; replying = k })) l'
    → Extends (record { to_destination = d; to_source = s; replying = k }) l'
unfolding put_reply
put_reply-Extends b d s true l' (f, r, g) = (f, b ++ r, g ∙ append_assoc s b r)
put_reply-Extends b d s false l' h = h

copy_replies-Extends : (steps : List Step) (l : Link) → Extends l (copy_replies l steps)
unfolding copy_replies end_replies
copy_replies-Extends [] l = (refl, [], sym (append-nil l.to_source))
copy_replies-Extends (forward b ∷ rest) l = copy_replies-Extends rest l
copy_replies-Extends (source_ends ∷ rest) l = copy_replies-Extends rest l
copy_replies-Extends (source_fails ∷ rest) l = copy_replies-Extends rest l
copy_replies-Extends (reply_ends ∷ rest) l = copy_replies-Extends rest (end_replies l)
copy_replies-Extends (forward_cut b ∷ rest) l = copy_replies-Extends rest l
copy_replies-Extends (reply_cut b ∷ rest) l =
    put_reply-Extends b l.to_destination l.to_source l.replying
      (copy_replies (end_replies (put_reply b l)) rest)
      (copy_replies-Extends rest (end_replies (put_reply b l)))
copy_replies-Extends (reply b ∷ rest) l =
    put_reply-Extends b l.to_destination l.to_source l.replying (copy_replies (put_reply b l) rest)
      (copy_replies-Extends rest (put_reply b l))

copy_on-copy_until :
    (steps : List Step) (l : Link)
    → Extends (copy_until l steps).0 (copy_on l steps).0
      × ((copy_on l steps).1 ≡ (copy_until l steps).1)
unfolding copy_on copy_until
copy_on-copy_until [] l = ((refl, [], sym (append-nil l.to_source)), refl)
copy_on-copy_until (forward b ∷ rest) l = copy_on-copy_until rest (put_forward b l)
copy_on-copy_until (reply b ∷ rest) l = copy_on-copy_until rest (put_reply b l)
copy_on-copy_until (source_ends ∷ rest) l = (copy_replies-Extends rest l, refl)
copy_on-copy_until (source_fails ∷ rest) l = (copy_replies-Extends rest l, refl)
copy_on-copy_until (reply_ends ∷ rest) l = copy_on-copy_until rest (end_replies l)
copy_on-copy_until (forward_cut b ∷ rest) l = (copy_replies-Extends rest (put_forward b l), refl)
copy_on-copy_until (reply_cut b ∷ rest) l = copy_on-copy_until rest (end_replies (put_reply b l))

-- Between two TCP connections, whatever comes and in what order, proxy and proxyConn end alike and write the
-- same to the destination, and what proxyConn writes back to the source is a prefix of what proxy does.
pub proxy-proxy_conn :
    (steps : List Step)
    → Extends (proxy_conn true true steps).0 (proxy true true steps).0
      × ((proxy true true steps).1 ≡ (proxy_conn true true steps).1)
unfolding proxy proxy_conn
proxy-proxy_conn steps =
    copy_on-copy_until steps (record { to_destination = []; to_source = []; replying = true })
