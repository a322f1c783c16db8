-- ===== src/Error.antt =====
-- crates/core/src/error.rs: the kinds of an error, their stable codes, and context chains. The
-- text of a message is not modelled.
pub mod Codes
use kronroe.Common.{ℕ, Bool, true, false, Option, none, some, List}
use kronroe.Contradiction.{Contradiction}

pub data ErrorCode : Type 0 where
  storage serialization schema_mismatch not_found invalid_fact_id invalid_embedding invalid_input
        search contradiction_rejected internal :
      ErrorCode

pub data ErrorKind : Type 0 where
  storage serialization not_found search invalid_fact_id invalid_embedding invalid_input internal :
      ErrorKind
  contradiction_rejected : List Contradiction → ErrorKind
  schema_mismatch : ℕ → ℕ → ErrorKind

-- An error of a kind, or one that was wrapped with context.
pub data KronroeError : Type 0 where
  plain : ErrorKind → KronroeError
  caused : ErrorKind → KronroeError → KronroeError

pub data Result {ℓ} (A : Type ℓ) : Type ℓ where
  ok : A → Result A
  err : KronroeError → Result A

infixl 5 ◌>>=◌ ◌>>◌
abbrev pub ◌>>=◌ {ℓ κ} : {A : Type ℓ} {B : Type κ} → Result A → (A → Result B) → Result B
ok a >>= f = f a
err e >>= f = err e

abbrev pub ◌>>◌ {ℓ κ} : {A : Type ℓ} {B : Type κ} → Result A → Result B → Result B
m >> k = m >>= λ _. k

-- `err` of a kind without context
abbrev pub fail {ℓ} : {A : Type ℓ} → ErrorKind → Result A
fail kind = err (plain kind)

abbrev pub is_ok {ℓ} : {A : Type ℓ} → Result A → Bool
is_ok (ok a) = true
is_ok (err e) = false

unfoldable pub as_u16 : ErrorCode → ℕ
as_u16 ErrorCode.storage = 1001
as_u16 ErrorCode.serialization = 1002
as_u16 ErrorCode.schema_mismatch = 1003
as_u16 ErrorCode.not_found = 2001
as_u16 ErrorCode.invalid_fact_id = 2002
as_u16 ErrorCode.invalid_embedding = 2003
as_u16 ErrorCode.invalid_input = 2004
as_u16 ErrorCode.search = 3001
as_u16 ErrorCode.contradiction_rejected = 4001
as_u16 ErrorCode.internal = 9001

code_of : ErrorKind → ErrorCode
code_of ErrorKind.storage = ErrorCode.storage
code_of ErrorKind.serialization = ErrorCode.serialization
code_of ErrorKind.not_found = ErrorCode.not_found
code_of ErrorKind.search = ErrorCode.search
code_of ErrorKind.invalid_fact_id = ErrorCode.invalid_fact_id
code_of ErrorKind.invalid_embedding = ErrorCode.invalid_embedding
code_of ErrorKind.invalid_input = ErrorCode.invalid_input
code_of ErrorKind.internal = ErrorCode.internal
code_of (ErrorKind.contradiction_rejected cs) = ErrorCode.contradiction_rejected
code_of (ErrorKind.schema_mismatch found expected) = ErrorCode.schema_mismatch

kind : KronroeError → ErrorKind
kind (plain k) = k
kind (caused k cause) = k

unfoldable pub code : KronroeError → ErrorCode
unfolding code_of kind
code e = code_of (kind e)

-- The kind of an error that wraps one of a code.
wrapping_kind : ErrorCode → ErrorKind
wrapping_kind ErrorCode.storage = ErrorKind.storage
wrapping_kind ErrorCode.serialization = ErrorKind.storage
wrapping_kind ErrorCode.schema_mismatch = ErrorKind.storage
wrapping_kind ErrorCode.not_found = ErrorKind.not_found
wrapping_kind ErrorCode.invalid_fact_id = ErrorKind.invalid_fact_id
wrapping_kind ErrorCode.invalid_embedding = ErrorKind.invalid_embedding
wrapping_kind ErrorCode.invalid_input = ErrorKind.invalid_input
wrapping_kind ErrorCode.search = ErrorKind.search
wrapping_kind ErrorCode.internal = ErrorKind.internal
wrapping_kind ErrorCode.contradiction_rejected = ErrorKind.internal

unfoldable pub context : KronroeError → KronroeError
unfolding code wrapping_kind
context e = caused (wrapping_kind (code e)) e

unfoldable pub cause : KronroeError → Option KronroeError
cause (plain k) = none
cause (caused k e) = some e

kind_contradictions : ErrorKind → Option (List Contradiction)
kind_contradictions (ErrorKind.contradiction_rejected cs) = some cs
kind_contradictions _ = none

unfoldable pub contradictions : KronroeError → Option (List Contradiction)
unfolding kind_contradictions kind
contradictions e = kind_contradictions (kind e)

kind_versions : ErrorKind → Option (ℕ × ℕ)
kind_versions (ErrorKind.schema_mismatch found expected) = some (found, expected)
kind_versions _ = none

unfoldable pub schema_versions : KronroeError → Option (ℕ × ℕ)
unfolding kind_versions kind
schema_versions e = kind_versions (kind e)
