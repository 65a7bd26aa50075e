-- ===== src/Protocol/Fields/RoundTrip.antt =====
-- Words are read back as they were written, and a response is read for what it says.
use fitz_destroyer.Common.{
  ℕ, ◌/◌, ◌%◌, ◌<◌, ◌≡◌, ◌≢◌, ◌↔◌, List, [], ◌∷◌, ◌++◌, length, take-append, length-append, ok,
  arith,
}
use fitz_destroyer.Protocol.Fields.{
  u32_bytes, get_u32, success, failure, read_failure, read_message, decode_standard_response,
}

-- `getUint32` undoes `setUint32` on the numbers that fit.
pub get_u32-u32_bytes :
    (n : ℕ)
    → n < 4294967296
    → get_u32 (n / 16777216 % 256) (n / 65536 % 256) (n / 256 % 256) (n % 256) ≡ n
get_u32-u32_bytes n h = omega arith

module _ {Text : Type 0} (decode : List ℕ → Text) where
  read_failure-ne-success : (given rest : List ℕ) → read_failure decode given ≢ ok (success rest)
  unfolding read_failure read_message
  read_failure-ne-success (a ∷ b ∷ c ∷ d ∷ e ∷ f ∷ g ∷ h ∷ tail) rest = ground arith
  read_failure-ne-success _ rest = ground arith

  -- The payloads that are read as a success with some data are a zero byte before those data.
  decode_standard_response-success :
      (payload rest : List ℕ)
      → (decode_standard_response decode payload ≡ ok (success rest)) ↔ (payload ≡ 0 ∷ rest)
  unfolding decode_standard_response
  decode_standard_response-success [] rest = (λ h. ground arith, λ h. ground arith)
  decode_standard_response-success (status ∷ given) rest =
      (λ h. ground (arith, read_failure-ne-success given rest), λ h. ground arith)

  -- An error response gives its code and its message, whatever follows the message.
  pub decode_standard_response-failure :
      (code : ℕ) (message trailing : List ℕ)
      → code < 4294967296
      → length message < 4294967296
      → decode_standard_response decode
          (1 ∷ u32_bytes code ++ u32_bytes (length message) ++ message ++ trailing)
        ≡ ok (failure code (decode message))
  unfolding decode_standard_response u32_bytes
  decode_standard_response-failure code message trailing h k =
      rw (get_u32-u32_bytes code h, get_u32-u32_bytes (length message) k)
        (ground (arith, take-append message trailing, length-append message trailing))
