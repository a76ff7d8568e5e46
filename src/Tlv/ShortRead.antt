-- ===== src/Tlv/ShortRead.antt =====
-- chapter4/tlv.go: `ReadFrom` reads the payload by one `Read`, which may give less than was asked.
use networking_in_go.Go.Binary.{put_u32}
use networking_in_go.Go.Reader.{Reader, cons_chunk, read_short}
use networking_in_go.Prelude.{
  ℕ, ◌+◌, ◌-◌, ◌≤◌, ◌≡◌, ◌≢◌, refl, ap, ◌∙◌, arith, [], ◌∷◌, ◌++◌, Bytes, ok, ltb, length,
  replicate, false, length-append,
}
use networking_in_go.Tlv.RoundTrip.{decode_header, type_of, make}
use networking_in_go.Tlv.{
  max_payload_size, Payload, bytes, read_bytes, read_body, as_payload, decode,
}

read_body_short :
    (size : ℕ) (a : Bytes) (r : Reader)
    → a ≢ []
    → length a ≤ size
    → size ≤ max_payload_size
    → read_body size (cons_chunk a r) ≡ (ok (5 + length a, a ++ replicate (size - length a) 0), r)
unfolding read_body read_bytes
read_body_short size [] r ne lt small = absurd (ne refl)
read_body_short size (b ∷ a) r ne lt small =
    let e : ltb max_payload_size size ≡ false = ground arith in
    rw (e, read_short size (b ∷ a) r ne lt, read_bytes)

as_payload-make_with :
    (p : Payload) (n : ℕ) (m : Bytes) (r : Reader)
    → as_payload (make p) (ok (n, m), r) ≡ (ok (make p m), r)
unfolding as_payload
as_payload-make_with p n m r = refl

-- If the bytes of a payload reach `decode` in two chunks, the first not empty, then it returns,
-- with no error, the first part and a zero for each byte of the second, which it leaves in the
-- reader, where the next call will take it for a message.
pub decode_short :
    (p : Payload) (a b : Bytes) (r : Reader)
    → bytes p ≡ a ++ b
    → a ≢ []
    → length (bytes p) ≤ max_payload_size
    → decode ((type_of p ∷ (put_u32 (length (bytes p)) ++ a)) ∷ b ∷ r)
      ≡ (ok (make p (a ++ replicate (length b) 0)), b ∷ r)
decode_short p a b r split ne small =
    let l : length (bytes p) ≡ length a + length b = ap length split ∙ length-append a b in
    let e : length (bytes p) - length a ≡ length b = omega arith in
    decode_header p (length (bytes p)) a (b ∷ r) (omega arith)
    ∙ ap (as_payload (make p)) (read_body_short (length (bytes p)) a (b ∷ r) ne (omega arith) small)
    ∙ as_payload-make_with p (5 + length a) (a ++ replicate (length (bytes p) - length a) 0) (b ∷ r)
    ∙ ap (λ n. (ok (make p (a ++ replicate n 0)), b ∷ r)) e
