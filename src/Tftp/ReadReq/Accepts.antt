-- ===== src/Tftp/ReadReq/Accepts.antt =====
-- chapter6/tftp.go: what `ReadReq.UnmarshalBinary` accepts, and that it reads what
-- `ReadReq.MarshalBinary` writes.
use networking_in_go.Go.Binary.{put_u16, get_u16, get_u16-put_u16}
use networking_in_go.Go.Text.{
  read_string, to_lower, Lacks, read_string-append, read_string_found, read_string-Lacks,
  trim_right-append,
}
use networking_in_go.Prelude.{
  [], ◌∷◌, ◌++◌, ◌≡◌, ◌≢◌, ◌∙◌, append_assoc, arith, Option, none, some, map, Bytes, equal_iff, ap,
}
use networking_in_go.Tftp.Packet.{op_rrq, PacketError, invalid_rrq}
use networking_in_go.Tftp.ReadReq.{
  ReadReq, octet, request_mode, marshal, unmarshal_mode, unmarshal_filename, unmarshal_op,
  unmarshal,
}

-- A name or a mode as the packet holds it, and a mode that asks for octets in any case.
abbrev pub IsField : Bytes → Type 0
IsField s = (s ≢ []) × Lacks 0 s

abbrev pub IsOctet : Bytes → Type 0
IsOctet m = map to_lower m ≡ octet

unmarshal_mode_complete :
    (q : ReadReq) (m rest : Bytes)
    → IsField m
    → IsOctet m
    → unmarshal_mode q (m ++ 0 ∷ rest) ≡ (record q { mode = m }, none)
unfolding unmarshal_mode
unmarshal_mode_complete q m rest (ne, l) o = ground (
  arith,
  read_string-append 0 m rest l,
  trim_right-append 0 m l,
  equal_iff m [],
  equal_iff (map to_lower m) octet,
)

unmarshal_filename_complete :
    (q : ReadReq) (f rest : Bytes)
    → IsField f
    → unmarshal_filename q (f ++ 0 ∷ rest) ≡ unmarshal_mode (record q { filename = f }) rest
unfolding unmarshal_filename
unmarshal_filename_complete q f rest (ne, l) =
    ground (arith, read_string-append 0 f rest l, trim_right-append 0 f l, equal_iff f [])

-- The bytes of an accepted packet.
pub record IsRequest (p f m rest : Bytes) : Type 0 where
  pub spells : p ≡ put_u16 op_rrq ++ (f ++ 0 ∷ (m ++ 0 ∷ rest))
  pub name : IsField f
  pub mode : IsField m
  pub octets : IsOctet m

-- A packet that spells a request is accepted, whatever stands behind the mode and whatever the
-- receiver held: the receiver then holds the name and the mode as sent.
pub ReadReq-unmarshal_complete :
    (q : ReadReq) {p : Bytes} (f m rest : Bytes)
    → IsRequest p f m rest
    → unmarshal q p ≡ (record { filename = f; mode = m }, none)
unfolding unmarshal unmarshal_op
ReadReq-unmarshal_complete q f m rest h =
    rw (h.spells, get_u16-put_u16 op_rrq _ (omega arith), unmarshal)
      (unmarshal_filename_complete q f _ h.name
        ∙ unmarshal_mode_complete (record q { filename = f }) m rest h.mode h.octets)

unmarshal_mode-IsField :
    (q : ReadReq) (s rest : Bytes)
    → Lacks 0 s
    → (unmarshal_mode q (s ++ 0 ∷ rest)).1 ≡ none
    → IsField s × IsOctet s
unfolding unmarshal_mode
unmarshal_mode-IsField q s rest l h = ground (
  arith,
  read_string-append 0 s rest l,
  trim_right-append 0 s l,
  equal_iff s [],
  equal_iff (map to_lower s) octet,
)

unmarshal_mode_sound :
    (q : ReadReq) (r : Bytes)
    → (unmarshal_mode q r).1 ≡ none
    → (m rest : Bytes) × (r ≡ m ++ 0 ∷ rest) × IsField m × IsOctet m
unmarshal_mode_sound q r h =
    let (s, l, line, split) = read_string_found 0 r (unfold unmarshal_mode in ground arith) in
    let (f, o) = unmarshal_mode-IsField q s _ l (rw split at h) in
    (s, (read_string 0 r).1, split, f, o)

unmarshal_filename-IsField :
    (q : ReadReq) (s rest : Bytes)
    → Lacks 0 s
    → (unmarshal_filename q (s ++ 0 ∷ rest)).1 ≡ none
    → IsField s
unfolding unmarshal_filename
unmarshal_filename-IsField q s rest l h =
    ground (arith, read_string-append 0 s rest l, trim_right-append 0 s l, equal_iff s [])

unmarshal_filename_sound :
    (q : ReadReq) (r : Bytes)
    → (unmarshal_filename q r).1 ≡ none
    → (f rest : Bytes) × (r ≡ f ++ 0 ∷ rest)
      × IsField f
      × ((unmarshal_mode (record q { filename = f }) rest).1 ≡ none)
unmarshal_filename_sound q r h =
    let (s, l, line, split) = read_string_found 0 r (unfold unmarshal_filename in ground arith) in
    let h' = rw split at h in
    let f = unmarshal_filename-IsField q s _ l h' in
    (s, (read_string 0 r).1, split, f, rw (unmarshal_filename_complete q s _ f) at h')

get_u16_op :
    (q : ReadReq) (p : Bytes)
    → (unmarshal q p).1 ≡ none
    → (r : Bytes) × (p ≡ put_u16 op_rrq ++ r) × ((unmarshal_filename q r).1 ≡ none)
unfolding unmarshal unmarshal_op put_u16 get_u16
get_u16_op q [] h = cc
get_u16_op q (a ∷ []) h = cc
get_u16_op q (a ∷ b ∷ r) h = (r, ground arith, ground arith)

-- A packet that is accepted is the operation code of a read request, a name and a mode that is
-- "octet" in any case, both without a zero byte, not empty, and ended by one.
pub ReadReq-unmarshal_sound :
    (q : ReadReq) (p : Bytes) → (unmarshal q p).1 ≡ none → (f m rest : Bytes) × IsRequest p f m rest
ReadReq-unmarshal_sound q p h =
    let (r, op, ok_name) = get_u16_op q p h in
    let (f, r', split, name, ok_mode) = unmarshal_filename_sound q r ok_name in
    let (m, rest, split', mode, octets) = unmarshal_mode_sound _ r' ok_mode in
    (f, m, rest, record { spells = cc; name = name; mode = mode; octets = octets })

request_mode-IsField : (q : ReadReq) → Lacks 0 q.mode → IsField (request_mode q)
unfolding request_mode
request_mode-IsField q l = ground (arith, equal_iff q.mode [])

-- What a client marshals is read back, with any bytes behind it: the name as it was, and the mode,
-- with "octet" for a mode left empty. The name is not empty, neither holds a zero byte, and the
-- mode asks for octets.
pub ReadReq-unmarshal-marshal :
    (q old : ReadReq) (rest : Bytes)
    → IsField q.filename
    → Lacks 0 q.mode
    → IsOctet (request_mode q)
    → unmarshal old (marshal q ++ rest)
      ≡ (record { filename = q.filename; mode = request_mode q }, none)
unfolding marshal
ReadReq-unmarshal-marshal q old rest name l o =
    ReadReq-unmarshal_complete old q.filename (request_mode q) rest (record {
      spells = simp append_assoc;
      name = name;
      mode = request_mode-IsField q l;
      octets = o;
    })

unmarshal_mode_unterminated :
    (q : ReadReq) (m : Bytes) → Lacks 0 m → (unmarshal_mode q m).1 ≡ some invalid_rrq
unfolding unmarshal_mode
unmarshal_mode_unterminated q m l = rw (read_string-Lacks 0 m l)

-- A request whose mode is not ended by a zero byte is refused.
pub unmarshal_unterminated :
    (q : ReadReq) (f m : Bytes)
    → IsField f
    → Lacks 0 m
    → (unmarshal q (put_u16 op_rrq ++ (f ++ 0 ∷ m))).1 ≡ some invalid_rrq
unfolding unmarshal unmarshal_op
unmarshal_unterminated q f m hf l =
    rw (get_u16-put_u16 op_rrq _ (omega arith), unmarshal)
      (ap (λ (r : ReadReq × Option PacketError). r.1) (unmarshal_filename_complete q f m hf)
        ∙ unmarshal_mode_unterminated (record q { filename = f }) m l)
