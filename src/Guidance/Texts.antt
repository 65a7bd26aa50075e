-- ===== src/Guidance/Texts.antt =====
-- src/operational-guidance.ts: the texts that its labels are made of.
use Prim.Native.Char.{code}
use Prim.Native.String.{String, [] as []ₛ, ◌∷◌ as ◌∷ₛ◌, ◌++◌ as ◌++ₛ◌, slice}
use fitz_destroyer.Common.{ℕ, zero, suc, ◌+◌, ◌-◌, ◌/◌, ◌%◌, ◌&&◌, ltb, leb, ◌==◌, if◌then◌else◌}

abbrev digit : ℕ → String
digit d = slice "0123456789" d (d + 1)

-- A number in a template string; it has no more digits than the fuel.
digits : (fuel n : ℕ) → String
digits zero n = ""
digits (suc fuel) n =
    let front = digits fuel (n / 10) in if ltb n 10 then digit n else front ++ₛ digit (n % 10)

unfoldable pub decimal : ℕ → String
unfolding digits
decimal n = digits (suc n) n

-- `text.replaceAll("-", " ")`
unfoldable pub spaced : String → String
spaced []ₛ = ""
spaced (c ∷ₛ rest) = (if code c == 45 then " " else c ∷ₛ "") ++ₛ spaced rest

-- `capitalize`, on a text that begins with an ASCII character.
unfoldable pub capitalize : String → String
capitalize []ₛ = ""
capitalize (c ∷ₛ rest) =
    (if leb 97 (code c) && leb (code c) 122
      then slice "ABCDEFGHIJKLMNOPQRSTUVWXYZ" (code c - 97) (code c - 96)
      else c ∷ₛ "")
    ++ₛ rest
