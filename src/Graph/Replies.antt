-- ===== src/Graph/Replies.antt =====
-- The replies of the storage behind those of the graph, and the fact that an assertion stores
-- (crates/core/src/temporal_graph.rs).
use kronroe.Common.{◌≡◌, refl, none, some, arith, inl, inr, ◌⊎◌}
use kronroe.Common.Text.{Text}
use kronroe.Float.{is_finite, clamp, lt, abs, is_nan, is_negative}
use kronroe.Time.{KronroeTimestamp}
use kronroe.FactId.{FactId}
use kronroe.Fact.{Fact, Value, with_confidence, one_f32}
use kronroe.Fact
use kronroe.Error.{Result, ok, err, KronroeError}
use kronroe.Backend.{AppendLogBackend, AppendOutcome, write_fact_with_contradiction_check, commit}
use kronroe.Backend
use kronroe.Graph.{TemporalGraph, on_storage, build_fact}

pub build_fact_default :
    (id : FactId) (now : KronroeTimestamp) (subject predicate : Text) (object : Value)
    (valid_from : KronroeTimestamp)
    → build_fact id now subject predicate object valid_from one_f32 none
      ≡ ok (Fact.new id now subject predicate object valid_from)
unfolding build_fact with_confidence is_finite clamp Fact.new lt abs is_nan is_negative
build_fact_default id now subject predicate object valid_from = refl

-- The reply of the storage behind a reply of the graph.
pub on_storage_cases {ℓ κ} :
    {A : Type ℓ} {B : Type κ} (g g' : TemporalGraph) (f : A → B) (reply : Backend.Reply A)
    (res : Result B)
    → on_storage g f reply ≡ some (g', res)
    → ((a : A) × (reply ≡ some (g'.storage, ok a)))
      ⊎ ((x : KronroeError) × (reply ≡ some (g'.storage, err x)))
on_storage_cases g g' f none res e = absurd (cc e)
on_storage_cases g g' f (some (b, ok a)) res e = inl (a, ground arith)
on_storage_cases g g' f (some (b, err x)) res e = inr (x, ground arith)

-- The value that the storage replied behind a value of the graph.
pub on_storage_ok {ℓ κ} :
    {A : Type ℓ} {B : Type κ} (g g' : TemporalGraph) (f : A → B) (reply : kronroe.Backend.Reply A)
    (v : B)
    → on_storage g f reply ≡ some (g', ok v)
    → (a : A) × (reply ≡ some (g'.storage, ok a)) × (v ≡ f a)
on_storage_ok g g' f none v e = absurd (cc e)
on_storage_ok g g' f (some (b, ok a)) v e = (a, ground arith, cc e)
on_storage_ok g g' f (some (b, err x)) v e = absurd (cc e)
