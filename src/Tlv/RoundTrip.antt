-- ===== src/Tlv/RoundTrip.antt =====
-- chapter4/tlv.go: `decode` reads what `WriteTo` writes.
use networking_in_go.Go.Binary.{put_u32, get_u32-put_u32}
use networking_in_go.Go.Reader.{Reader, read_full, cons_chunk, read_full-append, read-append}
use networking_in_go.Go.Writer.{Writer, written, write_room, written-written}
use networking_in_go.Prelude.{
  ℕ, ◌+◌, ◌-◌, ◌%◌, ◌≤◌, ◌<◌, ◌≡◌, refl, ap, ◌∙◌, arith, true, false, [], ◌∷◌, ◌++◌, Bytes, ok, err,
  ltb, ◌==◌, length, append_assoc, append-nil,
}
use networking_in_go.Tlv.{
  binary_type, string_type, max_payload_size, payload_too_large, Payload, binary, string, bytes,
  write_tlv, write_size, write_body, write_to, read_bytes, read_body, read_size, read_type,
  read_from, as_payload, decode_type, decode,
}

abbrev pub type_of : Payload → ℕ
type_of (binary m) = binary_type
type_of (string m) = string_type

-- The bytes of a message.
abbrev pub encode : Payload → Bytes
encode p = type_of p ∷ (put_u32 (length (bytes p) % 4294967296) ++ bytes p)

abbrev pub make : Payload → Bytes → Payload
make (binary m) = binary
make (string m) = string

length-put_u32 : (n : ℕ) → length (put_u32 n) ≡ 4
unfolding put_u32
length-put_u32 n = refl

read_full_u32 :
    (n : ℕ) (body : Bytes) (r : Reader)
    → read_full 4 ((put_u32 n ++ body) ∷ r) ≡ (ok (put_u32 n), cons_chunk body r)
unfolding put_u32
read_full_u32 n body r = read_full-append (put_u32 n) body r (λ e. cc)

read_full_byte :
    (t : ℕ) (c : Bytes) (r : Reader) → read_full 1 ((t ∷ c) ∷ r) ≡ (ok (t ∷ []), cons_chunk c r)
read_full_byte t c r = read_full-append (t ∷ []) c r (λ e. cc)

read_from_header :
    (t n : ℕ) (body : Bytes) (r : Reader)
    → n < 4294967296
    → read_from t ((t ∷ []) ∷ (put_u32 n ++ body) ∷ r) ≡ read_body n (cons_chunk body r)
unfolding read_from read_type read_size
read_from_header t n body r h =
    let e : (t == t) ≡ true = ground arith in
    rw (read_full_byte t [] ((put_u32 n ++ body) ∷ r), read_type)
      (rw e (rw (read_full_u32 n body r, read_size) (rw (get_u32-put_u32 n h))))

-- After the five bytes of a header `decode` is at the payload.
pub decode_header :
    (p : Payload) (n : ℕ) (body : Bytes) (r : Reader)
    → n < 4294967296
    → decode ((type_of p ∷ (put_u32 n ++ body)) ∷ r)
      ≡ as_payload (make p) (read_body n (cons_chunk body r))
unfolding decode decode_type put_u32
decode_header (binary m) n body r h =
    rw (read_full_byte binary_type (put_u32 n ++ body) r, decode_type)
      (ap (as_payload binary) (read_from_header binary_type n body r h))
decode_header (string m) n body r h =
    rw (read_full_byte string_type (put_u32 n ++ body) r, decode_type)
      (ap (as_payload string) (read_from_header string_type n body r h))

read_body_whole :
    (m more : Bytes) (r : Reader)
    → length m ≤ max_payload_size
    → read_body (length m) (cons_chunk (m ++ more) r) ≡ (ok (5 + length m, m), cons_chunk more r)
unfolding read_body read_bytes
read_body_whole m more r h =
    let small : ltb max_payload_size (length m) ≡ false = ground arith in
    let none_left : length m - length m ≡ 0 = omega arith in
    rw (small, read-append m more r, read_bytes) (rw none_left (rw append-nil))

as_payload-make :
    (p : Payload) (n : ℕ) (r : Reader) → as_payload (make p) (ok (n, bytes p), r) ≡ (ok p, r)
unfolding as_payload
as_payload-make (binary m) n r = refl
as_payload-make (string m) n r = refl

-- A message in one chunk, whatever stands behind it there.
decode_message :
    (p : Payload) (more : Bytes) (r : Reader)
    → length (bytes p) < 4294967296
    → decode ((encode p ++ more) ∷ r)
      ≡ as_payload (make p) (read_body (length (bytes p)) (cons_chunk (bytes p ++ more) r))
decode_message p more r h =
    let e : length (bytes p) % 4294967296 ≡ length (bytes p) = omega arith in
    ap (λ n. decode ((type_of p ∷ ((put_u32 n ++ bytes p) ++ more)) ∷ r)) e
    ∙ ap (λ b. decode ((type_of p ∷ b) ∷ r))
        (append_assoc (put_u32 (length (bytes p))) (bytes p) more)
    ∙ decode_header p (length (bytes p)) (bytes p ++ more) r h

decode-encode :
    (p : Payload) (more : Bytes) (r : Reader)
    → length (bytes p) ≤ max_payload_size
    → decode ((encode p ++ more) ∷ r) ≡ (ok p, cons_chunk more r)
decode-encode p more r h =
    decode_message p more r (omega arith)
    ∙ ap (as_payload (make p)) (read_body_whole (bytes p) more r h)
    ∙ as_payload-make p (5 + length (bytes p)) (cons_chunk more r)

decode-encode_large :
    (p : Payload) (more : Bytes) (r : Reader)
    → max_payload_size < length (bytes p)
    → length (bytes p) < 4294967296
    → (decode ((encode p ++ more) ∷ r)).0 ≡ err payload_too_large
unfolding as_payload read_body
decode-encode_large p more r large lt =
    let e : ltb max_payload_size (length (bytes p)) ≡ true = ground arith in
    rw (decode_message p more r lt) (rw e)

module _ (m : Bytes) where
  abbrev size_bytes : Bytes
  size_bytes = put_u32 (length m % 4294967296)

  write_body_lem :
      (w : Writer) → length m ≤ w.room → write_body m w ≡ (ok (5 + length m), written w m)
  unfolding write_body
  write_body_lem w h = rw (write_room m w h)

  write_size_lem : (w : Writer) → 4 ≤ w.room → write_size m w ≡ write_body m (written w size_bytes)
  unfolding write_size
  write_size_lem w h =
      rw (write_room size_bytes w (omega (arith, length-put_u32 (length m % 4294967296), h)))

  write_tlv_lem :
      (t : ℕ) (w : Writer)
      → 5 + length m ≤ w.room
      → write_tlv t m w ≡ (ok (5 + length m), written w (t ∷ (size_bytes ++ m)))
  unfolding write_tlv
  write_tlv_lem t w h = rw (write_room (t ∷ []) w (omega arith)) (
      write_size_lem (written w (t ∷ [])) (omega arith)
      ∙ write_body_lem (written (written w (t ∷ [])) size_bytes)
          (omega (arith, length-put_u32 (length m % 4294967296)))
      ∙ ap (λ v. (ok (5 + length m), v))
          (ap (λ v. written v m) (written-written w (t ∷ []) size_bytes)
            ∙ written-written w (t ∷ size_bytes) m))

-- A payload of any length goes to a writer with enough room as its message: the type byte, the
-- length modulo 2^32 and the bytes; the count returned is all that was written.
pub write_to-encode :
    (p : Payload) (w : Writer)
    → 5 + length (bytes p) ≤ w.room
    → write_to p w ≡ (ok (5 + length (bytes p)), written w (encode p))
unfolding write_to
write_to-encode (binary m) w h = write_tlv_lem m binary_type w h
write_to-encode (string m) w h = write_tlv_lem m string_type w h

-- What `WriteTo` puts on an empty writer with room for it, and a reader gets in one chunk, is
-- decoded to the payload written, if it has 10 MB at most; what follows stays in the reader.
pub decode-write_to :
    (p : Payload) (room : ℕ) (more : Bytes) (r : Reader)
    → 5 + length (bytes p) ≤ room
    → length (bytes p) ≤ max_payload_size
    → decode (((write_to p (record { out = []; room = room })).1.out ++ more) ∷ r)
      ≡ (ok p, cons_chunk more r)
decode-write_to p room more r fits small =
    rw (write_to-encode p (record { out = []; room = room }) fits) (decode-encode p more r small)

-- `WriteTo` does not look at the limit: a payload between 10 MB and 4 GB is written without an error,
-- and `decode` refuses what was written.
pub decode-write_to_large :
    (p : Payload) (room : ℕ) (more : Bytes) (r : Reader)
    → 5 + length (bytes p) ≤ room
    → max_payload_size < length (bytes p)
    → length (bytes p) < 4294967296
    → let (count, w) = write_to p (record { out = []; room = room }) in
      (count ≡ ok (5 + length (bytes p)))
      × ((decode ((w.out ++ more) ∷ r)).0 ≡ err payload_too_large)
decode-write_to_large p room more r fits large lt =
    rw (write_to-encode p (record { out = []; room = room }) fits)
      (refl, decode-encode_large p more r large lt)
