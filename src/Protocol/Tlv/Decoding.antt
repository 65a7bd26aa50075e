-- ===== src/Protocol/Tlv/Decoding.antt =====
-- What the decoder guarantees of any frame: it ends, and its records fit in the frame.
use fitz_destroyer.Common.{
  ℕ, zero, suc, ◌+◌, ◌*◌, ◌≤◌, ◌<◌, ◌≡◌, ◌∙◌, ◌≢◌, inl, inr, List, [], ◌∷◌, ◌++◌, length,
  length-take, length-drop, length-append, refl, >>=-eq-ok, ◌/◌, ◌%◌, All, IsByte, All-drop, Result,
  ok, err, ◌>>=◌, Result-cases, arith,
}
use mathlib.Core.List.{append-nil, append_assoc}
use fitz_destroyer.Protocol.Tlv.{
  TlvRecord, TlvError, out_of_fuel, type_bytes, encode_tlv, read_value, decode_record, decode_from,
  non_empty, decode_tlvs,
}
use fitz_destroyer.Protocol.Tlv.RoundTrip.{encode_tlvs}

-- A value has the length that was asked for, and what follows it is the rest of the frame.
abbrev Reads : ℕ → List ℕ → Result TlvError (List ℕ × List ℕ) → Type 0
Reads n frame (ok (v, rest)) =
    (length v ≡ n) × (length v + length rest ≡ length frame) × (All IsByte frame → All IsByte rest)
Reads n frame (err e) = e ≢ out_of_fuel

read_value-Reads : (n : ℕ) (frame : List ℕ) → Reads n frame (read_value n frame)
unfolding read_value
read_value-Reads n frame =
    ground
      (arith, length-take {A = ℕ} n frame, length-drop {A = ℕ} n frame, All-drop IsByte n frame)

-- What a round read fits in the bytes that it took.
record Fits (frame : List ℕ) (r : TlvRecord) (rest : List ℕ) : Type 0 where
  type_fits : r.type ≤ 0xffff
  payload_fits : length r.payload ≤ 0xffff
  cost : length (type_bytes r.type) + 2 + length r.payload + length rest ≤ suc (length frame)
  bytes : All IsByte rest

abbrev Decodes : ℕ → List ℕ → Result TlvError (TlvRecord × List ℕ) → Type 0
Decodes marker frame (ok (r, rest)) =
    (length rest < length frame) × (IsByte marker → All IsByte frame → Fits frame r rest)
Decodes marker frame (err e) = e ≢ out_of_fuel

decode_record-Decodes :
    (marker : ℕ) (frame : List ℕ) → Decodes marker frame (decode_record marker frame)
unfolding decode_record type_bytes
decode_record-Decodes marker [] = ground arith
decode_record-Decodes marker (a ∷ []) = ground arith
decode_record-Decodes marker (a ∷ b ∷ []) = ground (arith, read_value-Reads (a * 256 + b) [])
decode_record-Decodes marker (a ∷ b ∷ c ∷ []) =
    ground (arith, read_value-Reads (a * 256 + b) (c ∷ []))
decode_record-Decodes marker (a ∷ b ∷ c ∷ d ∷ frame) =
    ground
      (arith, read_value-Reads (a * 256 + b) (c ∷ d ∷ frame), read_value-Reads (c * 256 + d) frame)

decode_from-ne-out_of_fuel :
    (fuel : ℕ) (records : List TlvRecord) (frame : List ℕ)
    → length frame ≤ fuel
    → decode_from fuel records frame ≢ err out_of_fuel
unfolding decode_from
decode_from-ne-out_of_fuel zero records [] h = cc
decode_from-ne-out_of_fuel (suc fuel) records [] h = cc
decode_from-ne-out_of_fuel zero records (m ∷ frame) h = absurd (omega arith)
decode_from-ne-out_of_fuel (suc fuel) records (m ∷ frame) h =
    elim (Result-cases (decode_record m frame)) [
      | inr (e, refused) ↦ ground (arith, decode_record-Decodes m frame)
      | inl ((r, rest), read) ↦
          let d : Decodes m frame (ok (r, rest)) = rw read at (decode_record-Decodes m frame) in
          rw (read, ◌>>=◌) (decode_from-ne-out_of_fuel fuel (records ++ r ∷ []) rest (omega arith))
    ]

non_empty-ne-out_of_fuel : (rs : List TlvRecord) → non_empty rs ≢ err out_of_fuel
unfolding non_empty
non_empty-ne-out_of_fuel [] = ground arith
non_empty-ne-out_of_fuel (r ∷ rs) = ground arith

-- The decoder ends by itself on every frame: the frame's length is enough rounds.
pub decode_tlvs-ne-out_of_fuel : (frame : List ℕ) → decode_tlvs frame ≢ err out_of_fuel
unfolding decode_tlvs
decode_tlvs-ne-out_of_fuel frame h = elim (Result-cases (decode_from (length frame) [] frame)) [
  | inr (e, refused) ↦
      decode_from-ne-out_of_fuel (length frame) [] frame (omega arith)
        (refused ∙ (rw (refused, ◌>>=◌) at h))
  | inl (rs, read) ↦ non_empty-ne-out_of_fuel rs (rw (read, ◌>>=◌) at h)
]

-- A record that fits is encoded again, in no more bytes than it took.
encode_tlv-Fits :
    {frame : List ℕ} {r : TlvRecord} {rest : List ℕ}
    → Fits frame r rest
    → (bytes : List ℕ) × (encode_tlv r.type r.payload ≡ ok bytes)
      × (length bytes + length rest ≤ suc (length frame))
unfolding encode_tlv
encode_tlv-Fits {r} f =
    let tail = length r.payload / 256 ∷ length r.payload % 256 ∷ r.payload in
    (type_bytes r.type ++ tail, ground arith, omega (arith, length-append (type_bytes r.type) tail))

abbrev Encodable : List ℕ → List TlvRecord → Type 0
Encodable frame rs = (bytes : List ℕ) × (encode_tlvs rs ≡ ok bytes) × (length bytes ≤ length frame)

Encodable-cons :
    (m : ℕ) (frame : List ℕ) (r : TlvRecord) (rest : List ℕ) (rs : List TlvRecord)
    → Fits frame r rest
    → Encodable rest rs
    → Encodable (m ∷ frame) (r ∷ rs)
unfolding encode_tlvs
Encodable-cons m frame r rest rs f (tail, later, small) =
    let (head, first, cost) = encode_tlv-Fits f in
    (head ++ tail, rw (first, ◌>>=◌) (rw (later, ◌>>=◌)), omega (arith, length-append head tail))

decode_from-Encodable :
    (fuel : ℕ) (records rs : List TlvRecord) (frame : List ℕ)
    → All IsByte frame
    → decode_from fuel records frame ≡ ok rs
    → (new : List TlvRecord) × (rs ≡ records ++ new) × Encodable frame new
unfolding decode_from encode_tlvs
decode_from-Encodable zero records rs [] h e =
    ([], ground (arith, append-nil records), ([], refl, omega arith))
decode_from-Encodable (suc fuel) records rs [] h e =
    ([], ground (arith, append-nil records), ([], refl, omega arith))
decode_from-Encodable zero records rs (m ∷ frame) h e = cc
decode_from-Encodable (suc fuel) records rs (m ∷ frame) h e =
    let ((r, rest), read, later) = >>=-eq-ok (decode_record m frame) _ e in
    let d : Decodes m frame (ok (r, rest)) = rw read at (decode_record-Decodes m frame) in
    let f = d.1 h.0 h.1 in
    let (new, same, tail) = decode_from-Encodable fuel (records ++ r ∷ []) rs rest f.bytes later in
    (r ∷ new, same ∙ append_assoc records (r ∷ []) new, Encodable-cons m frame r rest new f tail)

non_empty-eq-ok :
    (rs : List TlvRecord) {qs : List TlvRecord} → non_empty rs ≡ ok qs → (qs ≡ rs) × (qs ≢ [])
unfolding non_empty
non_empty-eq-ok [] e = cc
non_empty-eq-ok (r ∷ rs) e = (ground arith, λ h. ground arith)

-- Every decoded record is one that the encoder accepts, and encoding the records again takes no
-- more bytes than the frame had.
pub decode_tlvs-encodable :
    (frame : List ℕ) (rs : List TlvRecord)
    → All IsByte frame
    → decode_tlvs frame ≡ ok rs
    → (rs ≢ []) × (bytes : List ℕ) × (encode_tlvs rs ≡ ok bytes) × (length bytes ≤ length frame)
unfolding decode_tlvs
decode_tlvs-encodable frame rs h e =
    let (read, found, later) = >>=-eq-ok (decode_from (length frame) [] frame) non_empty e in
    let (new, same, encoded) = decode_from-Encodable (length frame) [] read frame h found in
    let (kept, some_record) = non_empty-eq-ok read later in
    let whole : rs ≡ new = kept ∙ same in (some_record, encoded.0, rw whole encoded.1, encoded.2)
