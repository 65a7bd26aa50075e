-- ===== src/Protocol/Fields.antt =====
-- src/workloads/raw-protocol.ts: `encodeBytes`, `encodeU32`, `encodeU64`, `concatBytes`,
-- `encodeTcpFrame` and `decodeStandardResponse`. `DataView` writes big-endian bytes and wraps a
-- value to its width.
pub mod RoundTrip
use fitz_destroyer.Common.{
  ℕ, ◌+◌, ◌*◌, ◌/◌, ◌%◌, List, [], ◌∷◌, ◌++◌, length, take, leb, ltb, ◌==◌, if◌then◌else◌, Result,
  ok, err, ◌>>=◌, ◌>>◌, guard,
}

-- `setUint32(offset, n)`
unfoldable pub u32_bytes : ℕ → List ℕ
u32_bytes n = n / 16777216 % 256 ∷ n / 65536 % 256 ∷ n / 256 % 256 ∷ n % 256 ∷ []

-- `getUint32` of the four bytes
abbrev pub get_u32 : ℕ → ℕ → ℕ → ℕ → ℕ
get_u32 a b c d = a * 16777216 + b * 65536 + c * 256 + d

unfoldable pub encode_bytes : List ℕ → List ℕ
unfolding u32_bytes
encode_bytes value = u32_bytes (length value) ++ value

unfoldable pub encode_tcp_frame : List ℕ → List ℕ
unfolding u32_bytes
encode_tcp_frame frame = u32_bytes (length frame) ++ frame

pub data FieldError : Type 0 where
  u32_invalid : ℕ → FieldError

unfoldable pub encode_u32 : ℕ → Result FieldError (List ℕ)
unfolding u32_bytes
encode_u32 value = do guard (leb value 0xffff_ffff) (u32_invalid value); ok (u32_bytes value)

-- `setBigUint64`: the upper word, then the lower.
unfoldable pub encode_u64 : ℕ → List ℕ
unfolding u32_bytes
encode_u64 value = u32_bytes (value / 4294967296) ++ u32_bytes (value % 4294967296)

unfoldable pub concat_bytes : List (List ℕ) → List ℕ
concat_bytes [] = []
concat_bytes (part ∷ parts) = part ++ concat_bytes parts

pub data ResponseError : Type 0 where
  empty_response truncated_message : ResponseError
  invalid_status : ℕ → ResponseError

-- `Text` and `decode` are the platform's strings and its `TextDecoder`.
pub data StandardResponse (Text : Type 0) : Type 0 where
  success : (data_bytes : List ℕ) → StandardResponse Text
  failure : (error_code : ℕ) (error_message : Text) → StandardResponse Text

module _ {Text : Type 0} (decode : List ℕ → Text) where
  read_message : ℕ → ℕ → List ℕ → Result ResponseError (StandardResponse Text)
  read_message code message_length rest =
      if ltb (length rest) message_length
      then err truncated_message
      else ok (failure code (decode (take message_length rest)))

  -- What follows a status byte of 1: the code and the message's length need eight bytes.
  read_failure : List ℕ → Result ResponseError (StandardResponse Text)
  read_failure (a ∷ b ∷ c ∷ d ∷ e ∷ f ∷ g ∷ h ∷ rest) =
      read_message (get_u32 a b c d) (get_u32 e f g h) rest
  read_failure _ = err (invalid_status 1)

  unfoldable pub decode_standard_response : List ℕ → Result ResponseError (StandardResponse Text)
  unfolding read_message read_failure
  decode_standard_response [] = err empty_response
  decode_standard_response (status ∷ rest) =
      if status == 0
      then ok (success rest)
      else if status == 1
      then read_failure rest
      else err (invalid_status status)
