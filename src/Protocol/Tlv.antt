-- ===== src/Protocol/Tlv.antt =====
-- src/workloads/raw-protocol.ts: `encodeTlv` and `decodeTlvs`. A type is a natural number, so the
-- encoder's tests for fractions and for negative numbers have no counterpart.
pub mod RoundTrip
pub mod Decoding
use fitz_destroyer.Common.{
  ℕ, zero, suc, ◌+◌, ◌*◌, ◌/◌, ◌%◌, Bool, List, [], ◌∷◌, ◌++◌, length, take, drop, leb, ltb, ◌==◌,
  if◌then◌else◌, Result, ok, err, ◌>>=◌, ◌>>◌, guard,
}

pub record TlvRecord : Type 0 where
  pub type : ℕ
  pub payload : List ℕ

pub data TlvError : Type 0 where
  type_outside_u16 payload_too_large : ℕ → TlvError
  ended_in_escaped_type ended_in_length empty_frame : TlvError
  value_incomplete : (need have : ℕ) → TlvError
  -- no error of the source: the bound on the decoder's rounds was reached
  out_of_fuel : TlvError

type_bytes : ℕ → List ℕ
type_bytes type = if leb type 0xfe then type ∷ [] else 0xff ∷ type / 256 ∷ type % 256 ∷ []

unfoldable pub encode_tlv : ℕ → List ℕ → Result TlvError (List ℕ)
unfolding type_bytes
encode_tlv type payload = do
  guard (leb type 0xffff) (type_outside_u16 type)
  guard (leb (length payload) 0xffff) (payload_too_large (length payload))
  ok (type_bytes type ++ length payload / 256 ∷ length payload % 256 ∷ payload)

-- `(frame[offset++]! << 8) | frame[offset++]!`, where the shift leaves the low byte's bits clear
read_u16 : TlvError → List ℕ → Result TlvError (ℕ × List ℕ)
read_u16 e (high ∷ low ∷ rest) = ok (high * 256 + low, rest)
read_u16 e (high ∷ []) = err e
read_u16 e [] = err e

read_type : ℕ → List ℕ → Result TlvError (ℕ × List ℕ)
read_type marker rest =
    if marker == 0xff then read_u16 ended_in_escaped_type rest else ok (marker, rest)

read_value : ℕ → List ℕ → Result TlvError (List ℕ × List ℕ)
read_value n rest =
    if ltb (length rest) n
    then err (value_incomplete n (length rest))
    else ok (take n rest, drop n rest)

-- One round of the loop: the record whose marker was read, and what follows it.
decode_record : ℕ → List ℕ → Result TlvError (TlvRecord × List ℕ)
unfolding read_type read_u16
decode_record marker frame = do
  t ← read_type marker frame
  l ← read_u16 ended_in_length t.1
  v ← read_value l.0 l.1
  ok (record { type = t.0; payload = v.0 }, v.1)

-- The loop; the list is the frame from the offset on.
decode_from : ℕ → List TlvRecord → List ℕ → Result TlvError (List TlvRecord)
decode_from fuel records [] = ok records
decode_from zero records (marker ∷ frame) = err out_of_fuel
decode_from (suc fuel) records (marker ∷ frame) = do
  r ← decode_record marker frame
  decode_from fuel (records ++ r.0 ∷ []) r.1

non_empty : List TlvRecord → Result TlvError (List TlvRecord)
non_empty [] = err empty_frame
non_empty (r ∷ rs) = ok (r ∷ rs)

-- Each record takes at least three bytes, so the frame's length bounds the rounds.
unfoldable pub decode_tlvs : List ℕ → Result TlvError (List TlvRecord)
unfolding decode_from decode_record read_value non_empty
decode_tlvs frame = do records ← decode_from (length frame) [] frame; non_empty records
