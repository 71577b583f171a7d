-- ===== src/Error.antt =====
-- src/error.hpp: status codes, statuses, and results that are a value or a status.
-- The text of a message is a list of pieces: a literal, or a number that the code prints by
-- `std::to_string`.
use Prim.Native.String.{String}
use know_your_memory.Common.{ℕ, Bool, true, false, List, [], ◌∷◌, ◌++◌}

pub data StatusCode : Type 0 where
  ok unknown internal not_implemented invalid_argument not_found rate_limit : StatusCode

pub data Piece : Type 0 where
  text : String → Piece
  number : ℕ → Piece

pub record Status : Type 0 where
  pub code : StatusCode
  pub message : List Piece

-- `Status()`
abbrev pub success : Status
success = record { code = ok; message = [] }

-- `Status(code, message)`
abbrev pub failure : StatusCode → List Piece → Status
failure c m = record { code = c; message = m }

abbrev pub code_ok : StatusCode → Bool
code_ok ok = true
code_ok _ = false

abbrev pub is_ok : Status → Bool
is_ok s = code_ok s.code

-- `Status::Wrap`
abbrev pub wrap : List Piece → Status → Status
wrap m s = record s { message = m ++ text "\n" ∷ s.message }

-- `StatusOr<T>`: the code builds one from a value, or from a status that is not ok.
pub data StatusOr {ℓ} (A : Type ℓ) : Type ℓ where
  value : A → StatusOr A
  status : Status → StatusOr A

abbrev pub value_ok {ℓ} : {A : Type ℓ} → StatusOr A → Bool
value_ok (value a) = true
value_ok (status s) = false
