-- ===== src/Protocol/Examples.antt =====
-- Runs of the raw protocol's functions, and its theorems at concrete inputs.
use fitz_destroyer.Common.{ℕ, ◌≤◌, ◌≡◌, refl, ◌≢◌, List, [], ◌∷◌, ◌++◌, length, ok, err, arith}
use fitz_destroyer.Protocol.Tlv.{
  TlvRecord, out_of_fuel, value_incomplete, ended_in_length, encode_tlv, decode_tlvs,
}
use fitz_destroyer.Protocol.Tlv.RoundTrip.{encode_tlvs, decode_tlvs-encode}
use fitz_destroyer.Protocol.Tlv.Decoding.{decode_tlvs-ne-out_of_fuel, decode_tlvs-encodable}
use fitz_destroyer.Protocol.Fields.{
  u32_bytes, failure, truncated_message, decode_standard_response, encode_u64,
}
use fitz_destroyer.Protocol.Fields.RoundTrip.{decode_standard_response-failure}
use fitz_destroyer.Protocol.Tcp.{
  Event, arrives, receives, closes, opened, on_data, deliver, expire, receive, run,
}
use fitz_destroyer.Protocol.Tcp.Invariant.{opened-IsOrderly, taken}
use fitz_destroyer.Protocol.Tcp.Stream.{Carries, received, run-Carries}
use fitz_destroyer.Protocol.Tcp.Chunks.{on_data-append}
use fitz_destroyer.Protocol.Tcp.Timeouts.{receive-expire-loses}

-- A plain type, and one that needs the escape.
abbrev two_records : List TlvRecord
two_records = record { type = 7; payload = 1 ∷ 2 ∷ [] } ∷ record { type = 300; payload = [] } ∷ []

abbrev two_records_frame : List ℕ
two_records_frame = 7 ∷ 0 ∷ 2 ∷ 1 ∷ 2 ∷ 255 ∷ 1 ∷ 44 ∷ 0 ∷ 0 ∷ []

two_records-encode : encode_tlvs two_records ≡ ok two_records_frame
unfolding encode_tlvs encode_tlv
two_records-encode = refl

cut_frames :
    (decode_tlvs (7 ∷ 0 ∷ 2 ∷ 1 ∷ []) ≡ err (value_incomplete 2 1))
    × (decode_tlvs (255 ∷ 1 ∷ 44 ∷ 0 ∷ []) ≡ err ended_in_length)
unfolding decode_tlvs
cut_frames = (refl, refl)

decode_tlvs-encode_example : decode_tlvs two_records_frame ≡ ok two_records
decode_tlvs-encode_example =
    decode_tlvs-encode two_records two_records_frame (λ h. cc) two_records-encode

decode_tlvs-ne-out_of_fuel_example : decode_tlvs (7 ∷ 0 ∷ 2 ∷ 1 ∷ []) ≢ err out_of_fuel
decode_tlvs-ne-out_of_fuel_example = decode_tlvs-ne-out_of_fuel (7 ∷ 0 ∷ 2 ∷ 1 ∷ [])

-- An escaped type below 255 is re-encoded in fewer bytes.
-- An escaped type below 255 is re-encoded in fewer bytes.
abbrev one_record : List TlvRecord
one_record = record { type = 7; payload = 9 ∷ [] } ∷ []

decode_tlvs-encodable_example :
    (one_record ≢ []) × (bytes : List ℕ) × (encode_tlvs one_record ≡ ok bytes) × (length bytes ≤ 6)
unfolding decode_tlvs
decode_tlvs-encodable_example =
    decode_tlvs-encodable (255 ∷ 0 ∷ 7 ∷ 0 ∷ 1 ∷ 9 ∷ []) one_record (omega arith) refl

abbrev success_payload : List ℕ
success_payload = 0 ∷ 5 ∷ []

decode_standard_response-failure_example :
    decode_standard_response
      (λ text. text)
      (1 ∷ u32_bytes 404 ++ u32_bytes 2 ++ (110 ∷ 111 ∷ []) ++ 0 ∷ [])
    ≡ ok (failure 404 (110 ∷ 111 ∷ []))
decode_standard_response-failure_example =
    decode_standard_response-failure (λ text. text) 404 (110 ∷ 111 ∷ []) (0 ∷ []) (omega arith)
      (omega arith)

short_message :
    decode_standard_response (λ text. text) (1 ∷ 0 ∷ 0 ∷ 0 ∷ 1 ∷ 0 ∷ 0 ∷ 0 ∷ 2 ∷ 65 ∷ [])
    ≡ err truncated_message
unfolding decode_standard_response
short_message = refl

wide_word : encode_u64 4294967298 ≡ 0 ∷ 0 ∷ 0 ∷ 1 ∷ 0 ∷ 0 ∷ 0 ∷ 2 ∷ []
unfolding encode_u64
wide_word = refl

-- A frame of two bytes that comes in two chunks, around a receive; the next has only begun.
abbrev history : List Event
history =
    arrives (0 ∷ 0 ∷ 0 ∷ 2 ∷ 9 ∷ []) ∷ receives ∷ arrives (8 ∷ 0 ∷ 0 ∷ []) ∷ closes ∷ receives ∷ []

run-Carries_example : Carries (received history) (run history opened)
run-Carries_example = run-Carries history (tt, (tt, (tt, (tt, (tt, tt))))) (omega arith)

on_data-append_example :
    on_data (2 ∷ 9 ∷ 8 ∷ []) (on_data (0 ∷ 0 ∷ 0 ∷ []) opened)
    ≡ on_data (0 ∷ 0 ∷ 0 ∷ 2 ∷ 9 ∷ 8 ∷ []) opened
on_data-append_example = on_data-append (0 ∷ 0 ∷ 0 ∷ []) (2 ∷ 9 ∷ 8 ∷ []) opened

receive-expire-loses_example :
    ((deliver (5 ∷ []) (expire 0 (receive opened))).frames ≡ [])
    × (taken (deliver (5 ∷ []) (expire 0 (receive opened))).settled ≡ taken [])
receive-expire-loses_example = receive-expire-loses opened (5 ∷ []) opened-IsOrderly refl refl refl
