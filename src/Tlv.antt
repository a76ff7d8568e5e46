-- ===== src/Tlv.antt =====
-- chapter4/tlv.go: payloads of two types with a type byte and a length before them. The methods of
-- `Binary` and `String` have the same text but for the type byte, which is a parameter here.
pub mod RoundTrip
pub mod ShortRead
use networking_in_go.Go.Binary.{put_u32, get_u32}
use networking_in_go.Go.Io.{IoError}
use networking_in_go.Go.Reader.{Reader, read, read_full}
use networking_in_go.Go.Writer.{Writer, write}
use networking_in_go.Prelude.{
  ℕ, ◌+◌, ◌-◌, ◌*◌, ◌%◌, Bool, true, false, not, List, [], ◌∷◌, ◌++◌, Bytes, Result, ok, err, ltb,
  ◌==◌, if◌then◌else◌, length, replicate,
}

abbrev pub binary_type : ℕ
binary_type = 1

abbrev pub string_type : ℕ
string_type = 2

-- 10 << 20
abbrev pub max_payload_size : ℕ
max_payload_size = 10 * 1048576

pub data TlvError : Type 0 where
  io : IoError → TlvError
  write_error invalid_type payload_too_large : TlvError

pub data Payload : Type 0 where
  binary string : Bytes → Payload

-- `Bytes()`
abbrev pub bytes : Payload → Bytes
bytes (binary m) = m
bytes (string m) = m

-- From the third write on.
write_body : Bytes → Writer → Result TlvError ℕ × Writer
write_body m w = let (o, fine, w') = write m w in (if fine then ok (5 + o) else err write_error, w')

-- From the second write on.
write_size : Bytes → Writer → Result TlvError ℕ × Writer
unfolding write_body
write_size m w =
    let (n, fine, w') = write (put_u32 (length m % 4294967296)) w in
    if fine then write_body m w' else (err write_error, w')

-- The `WriteTo` of the type with the type byte `typ`.
write_tlv : ℕ → Bytes → Writer → Result TlvError ℕ × Writer
unfolding write_size
write_tlv typ m w =
    let (n, fine, w') = write (typ ∷ []) w in
    if fine then write_size m w' else (err write_error, w')

unfoldable pub write_to : Payload → Writer → Result TlvError ℕ × Writer
unfolding write_tlv
write_to (binary m) w = write_tlv binary_type m w
write_to (string m) w = write_tlv string_type m w

-- The slice of `size` zeros once one `Read` has written to its front, and the count returned.
read_bytes : ℕ → Result IoError Bytes × Reader → Result TlvError (ℕ × Bytes) × Reader
read_bytes size (err e, r) = (err (io e), r)
read_bytes size (ok got, r) = (ok (5 + length got, got ++ replicate (size - length got) 0), r)

pub read_body : ℕ → Reader → Result TlvError (ℕ × Bytes) × Reader
unfolding read_bytes
read_body size r =
    if ltb max_payload_size size then (err payload_too_large, r) else read_bytes size (read size r)

read_size : Result IoError Bytes × Reader → Result TlvError (ℕ × Bytes) × Reader
unfolding read_body
read_size (err e, r) = (err (io e), r)
read_size (ok b, r) = read_body (get_u32 b) r

read_type : ℕ → Result IoError Bytes × Reader → Result TlvError (ℕ × Bytes) × Reader
unfolding read_size
read_type typ (err e, r) = (err (io e), r)
read_type typ (ok [], r) = (err invalid_type, r)
read_type typ (ok (t ∷ _), r) =
    if not (t == typ) then (err invalid_type, r) else read_size (read_full 4 r)

-- The `ReadFrom` of the type with the type byte `typ`: the count, and the receiver's new bytes.
unfoldable pub read_from : ℕ → Reader → Result TlvError (ℕ × Bytes) × Reader
unfolding read_type
read_from typ r = read_type typ (read_full 1 r)

pub as_payload :
    (Bytes → Payload) → Result TlvError (ℕ × Bytes) × Reader → Result TlvError Payload × Reader
as_payload make (err e, r) = (err e, r)
as_payload make (ok (n, m), r) = (ok (make m), r)

-- The type byte is put back in front of the reader.
decode_type : Result IoError Bytes × Reader → Result TlvError Payload × Reader
unfolding as_payload
decode_type (err e, r) = (err (io e), r)
decode_type (ok [], r) = (err invalid_type, r)
decode_type (ok (t ∷ _), r) =
    if t == binary_type
    then as_payload binary (read_from binary_type ((t ∷ []) ∷ r))
    else if t == string_type
    then as_payload string (read_from string_type ((t ∷ []) ∷ r))
    else (err invalid_type, r)

unfoldable pub decode : Reader → Result TlvError Payload × Reader
unfolding decode_type
decode r = decode_type (read_full 1 r)
