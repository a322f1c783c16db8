-- ===== src/Json/Decoded.antt =====
-- crates/core/src/json_read.rs: `JsonValue::parse_str`, with its error as one of the crate, and what is
-- read from the value.
use kronroe.Common.Text.{Text}
use kronroe.Error.{Result, fail, ErrorKind}
use kronroe.Json.{JsonValue, Outcome, ok, err, panicked, out_of_fuel}
use kronroe.Json.Parse.{parse}

unfoldable pub from_outcome :
    {A : Type 0} → (JsonValue → Result A) → Outcome JsonValue → Outcome (Result A)
from_outcome read (ok val) = ok (read val)
from_outcome read (err e) = ok (fail ErrorKind.serialization)
from_outcome read panicked = panicked
from_outcome read out_of_fuel = out_of_fuel

unfoldable pub decoded : {A : Type 0} → (JsonValue → Result A) → Text → Outcome (Result A)
unfolding from_outcome parse
decoded read s = from_outcome read (parse s)
