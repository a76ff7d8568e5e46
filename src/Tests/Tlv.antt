-- ===== src/Tests/Tlv.antt =====
-- Tests of chapter4/tlv.go.
use networking_in_go.Prelude.{
  [], ◌∷◌, ◌++◌, ◌≡◌, ◌+◌, refl, arith, codes, replicate, length, ok, err, length-replicate, ℕ,
}
use networking_in_go.Go.Binary.{put_u32, get_u32}
use networking_in_go.Go.Reader.{read, read_full}
use networking_in_go.Tlv.{
  Payload, binary, string, bytes, write_to, decode, read_from, invalid_type, payload_too_large,
}
use networking_in_go.Tlv.RoundTrip.{decode-write_to, decode-write_to_large}
use networking_in_go.Tlv.ShortRead.{decode_short}

abbrev hello : Payload
hello = string (codes "hello")

decodes :
    decode ((2 ∷ 0 ∷ []) ∷ (0 ∷ 0 ∷ 2 ∷ []) ∷ (codes "hi" ++ 1 ∷ []) ∷ [])
    ≡ (ok (string (codes "hi")), (1 ∷ []) ∷ [])
unfolding decode read_from read read_full get_u32
decodes = refl

unknown_type : (decode ((3 ∷ []) ∷ [])).0 ≡ err invalid_type
unfolding decode read_full
unknown_type = refl

decode-write_to_example :
    decode (((write_to hello (record { out = []; room = 20 })).1.out ++ 8 ∷ []) ∷ (5 ∷ []) ∷ [])
    ≡ (ok hello, (8 ∷ []) ∷ (5 ∷ []) ∷ [])
decode-write_to_example =
    decode-write_to hello 20 (8 ∷ []) ((5 ∷ []) ∷ []) (omega arith) (omega arith)

decode_short_example :
    decode ((2 ∷ (put_u32 5 ++ codes "he")) ∷ codes "llo" ∷ [])
    ≡ (ok (string (codes "he" ++ 0 ∷ 0 ∷ 0 ∷ [])), codes "llo" ∷ [])
decode_short_example = decode_short hello (codes "he") (codes "llo") [] refl (λ e. cc) (omega arith)

zeros : ℕ → Payload
zeros n = binary (replicate n 0)

length-zeros : (n : ℕ) → length (bytes (zeros n)) ≡ n
unfolding zeros
length-zeros n = length-replicate n 0

-- 10 MB and one byte.
decode-write_to_large_example :
    let (count, w) = write_to (zeros 10485761) (record { out = []; room = 20000000 }) in
    (count ≡ ok (5 + length (bytes (zeros 10485761))))
    × ((decode ((w.out ++ []) ∷ [])).0 ≡ err payload_too_large)
decode-write_to_large_example =
    decode-write_to_large (zeros 10485761) 20000000 [] [] (omega (arith, length-zeros 10485761))
      (omega (arith, length-zeros 10485761)) (omega (arith, length-zeros 10485761))
