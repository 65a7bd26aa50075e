-- ===== src/Protocol/Tlv/RoundTrip.antt =====
-- Decoding a frame of encoded records gives the records back.
use fitz_destroyer.Common.{
  ℕ, zero, suc, ◌/◌, ◌%◌, ◌≤◌, ◌<◌, ◌≡◌, refl, ap, ◌∙◌, ◌≢◌, inl, inr, Bool-cases, leb, List, [],
  ◌∷◌, ◌++◌, length, length-append, take-append, drop-append, Result, ok, ◌>>=◌, >>=-eq-ok, arith,
}
use mathlib.Core.List.{append_assoc, append-nil}
use fitz_destroyer.Protocol.Tlv.{
  TlvRecord, TlvError, encode_tlv, read_value, decode_record, decode_from, decode_tlvs,
}

-- A frame of several records, as the workloads build it: the encodings end to end.
unfoldable pub encode_tlvs : List TlvRecord → Result TlvError (List ℕ)
encode_tlvs [] = ok []
encode_tlvs (r ∷ rs) = do
  head ← encode_tlv r.type r.payload
  tail ← encode_tlvs rs
  ok (head ++ tail)

-- An encoding is never empty: its first byte, and the rest.
record Encoded (r : TlvRecord) (bytes : List ℕ) : Type 0 where
  marker : ℕ
  body : List ℕ
  shape : bytes ≡ marker ∷ body
  decodes : (rest : List ℕ) → decode_record marker (body ++ rest) ≡ ok (r, rest)

module _ (type : ℕ) (payload rest : List ℕ) (size : length payload ≤ 0xffff) where
  decode-encode_short :
      type ≤ 0xfe
      → decode_record type (length payload / 256 ∷ length payload % 256 ∷ payload ++ rest)
        ≡ ok (record { type = type; payload = payload }, rest)
  unfolding decode_record read_value
  decode-encode_short h =
      ground (arith, take-append payload rest, drop-append payload rest, length-append payload rest)

  decode-encode_long :
      type ≤ 0xffff
      → decode_record 0xff
          (type / 256 ∷ type % 256 ∷ length payload / 256 ∷ length payload % 256 ∷ payload ++ rest)
        ≡ ok (record { type = type; payload = payload }, rest)
  unfolding decode_record read_value
  decode-encode_long h =
      ground (arith, take-append payload rest, drop-append payload rest, length-append payload rest)

encode_tlv-Encoded :
    (type : ℕ) (payload bytes : List ℕ)
    → encode_tlv type payload ≡ ok bytes
    → Encoded (record { type = type; payload = payload }) bytes
unfolding encode_tlv
encode_tlv-Encoded type payload bytes e = elim (Bool-cases (leb type 0xffff)) [
  | inr wide ↦ absurd (ground arith)
  | inl fits ↦ elim (Bool-cases (leb (length payload) 0xffff)) [
    | inr large ↦ absurd (ground arith)
    | inl small ↦ elim (Bool-cases (leb type 0xfe)) [
      | inl short ↦ record {
        marker = type;
        body = length payload / 256 ∷ length payload % 256 ∷ payload;
        shape = ground arith;
        decodes = λ rest. decode-encode_short type payload rest (ground arith) (ground arith);
      }
      | inr long ↦ record {
        marker = 0xff;
        body = type / 256 ∷ type % 256 ∷ length payload / 256 ∷ length payload % 256 ∷ payload;
        shape = ground arith;
        decodes = λ rest. decode-encode_long type payload rest (ground arith) (ground arith);
      }
    ]
  ]
]

length-Encoded :
    {r : TlvRecord} {head : List ℕ} (tail : List ℕ)
    → Encoded r head
    → length tail < length (head ++ tail)
length-Encoded tail c =
    omega (arith, ap (λ bytes. length (bytes ++ tail)) c.shape, length-append c.body tail)

-- One round of the decoder reads one encoding off.
decode_from-Encoded :
    (fuel : ℕ) (records : List TlvRecord) {r : TlvRecord} {head : List ℕ} (tail : List ℕ)
    → Encoded r head
    → length (head ++ tail) ≤ suc fuel
    → (length tail ≤ fuel)
      × (decode_from (suc fuel) records (head ++ tail) ≡ decode_from fuel (records ++ r ∷ []) tail)
unfolding decode_from
decode_from-Encoded fuel records {r} {head} tail c h =
    (omega (arith, length-Encoded tail c), rw (c.shape, decode_from) (rw (c.decodes tail)))

decode_from-encode :
    (fuel : ℕ) (records rs : List TlvRecord) (frame : List ℕ)
    → encode_tlvs rs ≡ ok frame
    → length frame ≤ fuel
    → decode_from fuel records frame ≡ ok (records ++ rs)
unfolding encode_tlvs decode_from
decode_from-encode fuel records [] [] e h = rw append-nil
decode_from-encode fuel records [] (b ∷ frame) e h = cc
decode_from-encode zero records (r ∷ rs) frame e h =
    let (head, first, e') = >>=-eq-ok (encode_tlv r.type r.payload) _ e in
    let (tail, later, same) = >>=-eq-ok (encode_tlvs rs) (λ tail. ok (head ++ tail)) e' in
    let c = encode_tlv-Encoded r.type r.payload head first in
    let joined : head ++ tail ≡ frame = ground arith in
    absurd (omega (arith, ap length joined, length-Encoded tail c))
decode_from-encode (suc fuel) records (r ∷ rs) frame e h =
    let (head, first, e') = >>=-eq-ok (encode_tlv r.type r.payload) _ e in
    let (tail, later, same) = >>=-eq-ok (encode_tlvs rs) (λ tail. ok (head ++ tail)) e' in
    let c = encode_tlv-Encoded r.type r.payload head first in
    let joined : head ++ tail ≡ frame = ground arith in
    let (small, step) = decode_from-Encoded fuel records tail c (omega (arith, ap length joined)) in
    rw (← joined)
      (step ∙ rw append_assoc at (decode_from-encode fuel (records ++ r ∷ []) rs tail later small))

-- A frame built from records decodes to those records, whatever their number, as long as there is
-- one.
pub decode_tlvs-encode :
    (rs : List TlvRecord) (frame : List ℕ)
    → rs ≢ []
    → encode_tlvs rs ≡ ok frame
    → decode_tlvs frame ≡ ok rs
unfolding decode_tlvs
decode_tlvs-encode [] frame h e = absurd (h refl)
decode_tlvs-encode (r ∷ rs) frame h e =
    rw (decode_from-encode (length frame) [] (r ∷ rs) frame e (omega arith))
