-- ===== src/Error/Codes.antt =====
-- crates/core/src/error.rs: the codes of errors, and what `context` does to them.
use kronroe.Common.{not, ◌/◌, ◌==◌, ◌≡◌, arith, some}
use kronroe.Error.{KronroeError, ErrorCode, code, context, cause, as_u16}

-- Distinct codes have distinct numbers.
pub as_u16-injective : (a b : ErrorCode) → as_u16 a ≡ as_u16 b → a ≡ b
unfolding as_u16
as_u16-injective a b e = ground arith

-- One layer of context settles the code: a second changes nothing but the chain.
pub code-context_idem :
    (e : KronroeError)
    → (code (context (context e)) ≡ code (context e)) × (cause (context e) ≡ some e)
unfolding code context cause
code-context_idem e = ground arith

-- Wrapping an error with context keeps the category of its code, the thousands of the number,
-- unless the error is a rejected contradiction, whose category changes.
pub context_category :
    (e : KronroeError)
    → ((as_u16 (code (context e)) / 1000) == (as_u16 (code e) / 1000))
      ≡ not (as_u16 (code e) == 4001)
unfolding code context as_u16
context_category e = ground arith
