-- ===== src/Log/Json/RoundTrip/Embedding.antt =====
-- crates/core/src/storage_append_log.rs: the record of a fact with its embedding, and its line.
use mathlib.Core.List.{append_assoc, append-nil}
use kronroe.Common.{ℕ, ◌≡◌, refl, ◌∙◌, ap, sym, true, some, List, [], ◌∷◌, ◌++◌, All}
use kronroe.Common.Text.{Text, codes, text_eq, text_lt}
use kronroe.Common.Utf8.{is_utf8, utf8_after, announced}
use mathlib.Core.Path.{subst}
use kronroe.Error.{Result, ok, err, ◌>>=◌}
use kronroe.Fact.{Fact}
use kronroe.Fact.Json.{or_missing}
use kronroe.Fact.Json.RoundTrip.{fact-Reads, fact_from_json-fact_value}
use kronroe.Float.Decimal.{f32_of_f64}
use kronroe.Json.{
  JsonValue, object, member, empty, number, array, Elements, nil, cons, push, insert_member, get,
  as_str, as_f32, as_array,
}
use kronroe.Json.Arrays.{Item, items_text, array_text, pushed, ItemReads, array-Reads}
use kronroe.Json.Numbers.{IsNumber}
use kronroe.Json.Objects.{Reads, Entry, str-Reads, entry_text}
use kronroe.Json.Write.{write_string, write_kv_string, write_f32}
use kronroe.Log.{upsert_fact_with_embedding}
use kronroe.Log.Json.{record_json, record_from_json, variant, tagged, write_elements, numbers_of}
use kronroe.Log.Json.RoundTrip.{
  FactFit, RecordReads, tagged-Reads, text_entry, fact_entry, inner_value,
}

-- The number of an element is read back.
pub record ElementFits (v n : ℕ) : Type 0 where
  pub text : IsNumber (write_f32 v) n
  pub value : f32_of_f64 n ≡ v

abbrev pub EmbeddingFits : List ℕ → Type 0
EmbeddingFits [] = Unit
EmbeddingFits (v ∷ vs) = ((n : ℕ) × ElementFits v n) × EmbeddingFits vs

abbrev items : (vs : List ℕ) → EmbeddingFits vs → List Item
items [] f = []
items (v ∷ vs) f = (write_f32 v, f.0.0) ∷ items vs f.1

items-ItemReads : (vs : List ℕ) (f : EmbeddingFits vs) → All ItemReads (items vs f)
items-ItemReads [] f = tt
items-ItemReads (v ∷ vs) f = (f.0.1.text, items-ItemReads vs f.1)

items-write_elements :
    (vs : List ℕ) (f : EmbeddingFits vs)
    → array_text (items vs f) ≡ b'[' ∷ (write_elements vs ++ (b']' ∷ []))
unfolding write_elements
items-write_elements [] f = refl
items-write_elements (v ∷ []) f = refl
items-write_elements (v ∷ w ∷ vs) f = ap (λ x. b'[' ∷ x) (more v w vs f)
  where
    more :
        (v w : ℕ) (vs : List ℕ) (f : EmbeddingFits (v ∷ w ∷ vs))
        → items_text (write_f32 v, f.0.0) (items (w ∷ vs) f.1)
          ≡ write_elements (v ∷ w ∷ vs) ++ (b']' ∷ [])
    more v w [] f = sym (append_assoc (write_f32 v) (b',' ∷ write_f32 w) (b']' ∷ []))
    more v w (x ∷ vs) f =
        ap (λ t. write_f32 v ++ (b',' ∷ t)) (more w x vs f.1)
        ∙ sym (append_assoc (write_f32 v) (b',' ∷ write_elements (w ∷ x ∷ vs)) (b']' ∷ []))

appended :
    (m : Result ℕ) (k : Result (List ℕ)) (n : ℕ)
    → (m >>= λ x. (k >>= λ ns. ok (ns ++ (n ∷ []))) >>= λ ns. ok (x ∷ ns))
      ≡ ((m >>= λ x. k >>= λ ns. ok (x ∷ ns)) >>= λ ns. ok (ns ++ (n ∷ [])))
appended (ok x) (ok ns) n = refl
appended (ok x) (err e) n = refl
appended (err e) k n = refl

numbers_of-push :
    (acc : Elements) (n : ℕ)
    → numbers_of (push (number n) acc)
      ≡ (numbers_of acc >>= λ (ns : List ℕ). ok (ns ++ (f32_of_f64 n ∷ [])))
unfolding numbers_of push as_f32
numbers_of-push nil n = refl
numbers_of-push (cons v acc) n =
    ap (λ k. or_missing (as_f32 v) >>= λ (x : ℕ). k >>= λ (ns : List ℕ). ok (x ∷ ns))
      (numbers_of-push acc n)
    ∙ appended (or_missing (as_f32 v)) (numbers_of acc) (f32_of_f64 n)

numbers_of-pushed :
    (vs : List ℕ) (f : EmbeddingFits vs) (acc : Elements) (ns : List ℕ)
    → numbers_of acc ≡ ok ns
    → numbers_of (pushed acc (items vs f)) ≡ ok (ns ++ vs)
numbers_of-pushed [] f acc ns e = e ∙ ap (λ x. ok x) (sym (append-nil ns))
numbers_of-pushed (v ∷ vs) f acc ns e =
    numbers_of-pushed vs f.1 (push (number (f.0.0)) acc) (ns ++ (f32_of_f64 (f.0.0) ∷ [])) (
      numbers_of-push acc (f.0.0)
      ∙ ap (λ m. m >>= λ (ns : List ℕ). ok (ns ++ (f32_of_f64 (f.0.0) ∷ []))) e)
    ∙ ap (λ x. ok x)
        (append_assoc ns (f32_of_f64 (f.0.0) ∷ []) vs ∙ ap (λ x. ns ++ (x ∷ vs)) f.0.1.value)

abbrev elements_value : (vs : List ℕ) → EmbeddingFits vs → JsonValue
elements_value vs f = array (pushed nil (items vs f))

abbrev entries :
    (fact : Fact) (embedding : List ℕ) → FactFit fact → EmbeddingFits embedding → List Entry
entries fact embedding f g =
    fact_entry fact f
    ∷ (codes "embedding", array_text (items embedding g), elements_value embedding g)
    ∷ []

abbrev value :
    (key : Text) (fact : Fact) (embedding : List ℕ)
    → FactFit fact
    → EmbeddingFits embedding
    → JsonValue
value key fact embedding f g = object (
    member (codes "UpsertFactWithEmbedding")
      (inner_value (text_entry (codes "key") key) (entries fact embedding f g)) empty)

-- The line with the text of the array in its place.
abbrev line_with : (key : Text) (fact : Fact) → FactFit fact → Text → Text
line_with key fact f t = tagged (codes "UpsertFactWithEmbedding") (
    entry_text (text_entry (codes "key") key)
    ++ (b','
        ∷ (entry_text (fact_entry fact f)
            ++ (b',' ∷ (write_string (codes "embedding") ++ (b':' ∷ t))))))

line-Reads :
    (key : Text) (fact : Fact) (embedding : List ℕ) (f : FactFit fact) (g : EmbeddingFits embedding)
    → is_utf8 key ≡ true
    → Reads (line_with key fact f (array_text (items embedding g))) (value key fact embedding f g)
unfolding is_utf8 utf8_after announced
line-Reads key fact embedding f g u =
    tagged-Reads (codes "UpsertFactWithEmbedding") (text_entry (codes "key") key)
      (entries fact embedding f g) refl (refl, str-Reads key u)
      (
        (refl, fact-Reads fact f.0 f.1),
        ((refl, array-Reads (items embedding g) (items-ItemReads embedding g)), tt),
      )

none_read : numbers_of nil ≡ ok []
unfolding numbers_of
none_read = refl

value_back :
    (key : Text) (fact : Fact) (embedding : List ℕ) (f : FactFit fact) (g : EmbeddingFits embedding)
    → record_from_json (value key fact embedding f g)
      ≡ ok (some (upsert_fact_with_embedding key fact embedding))
unfolding record_from_json variant insert_member get as_str as_array text_eq text_lt
value_back key fact embedding f g =
    rw (fact_from_json-fact_value fact f.0 f.1, numbers_of-pushed embedding g nil [] none_read) refl

pub embedding-RecordReads :
    (key : Text) (fact : Fact) (embedding : List ℕ)
    → is_utf8 key ≡ true
    → FactFit fact
    → EmbeddingFits embedding
    → RecordReads (upsert_fact_with_embedding key fact embedding)
unfolding record_json write_kv_string
embedding-RecordReads key fact embedding u f g = record {
  value = value key fact embedding f g;
  reads =
      subst (λ (t : Text). Reads (line_with key fact f t) (value key fact embedding f g))
        (items-write_elements embedding g) (line-Reads key fact embedding f g u);
  back = value_back key fact embedding f g;
}
