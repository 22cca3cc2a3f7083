-- ===== src/Admission/Json.antt =====
-- What ge_runtime/spec.py uses of the `json` module on a value that is in memory: whether
-- `json.dumps(value, allow_nan=False)` raises, and `json.loads(canonical_json(value))`, which sorts
-- the keys of every object.
use hermes_graph_engineering.Base.{
  String, string_eq, ◌≡◌, refl, ap, ◌∙◌, Bool, Bool-cases, inl, inr, true, false, ◌&&◌, ◌||◌, ◌==◌,
  has, if◌then◌else◌, text_le, text_le-false, arith, lookup, map_option, some,
}
use hermes_graph_engineering.Base.Int.{pos}
use hermes_graph_engineering.Values.{
  Float, finite, infinity, neg_infinity, nan, Value, null, bool, int, float, str, obj, arr, Fields,
  end, field, entries, Items, nil, cons,
}

abbrev is_finite : Float → Bool
is_finite (finite m k) = true
is_finite infinity = false
is_finite neg_infinity = false
is_finite nan = false

-- `_is_json_value`
unfoldable mutual
  pub is_json_value : Value → Bool
  is_json_value (float f) = is_finite f
  is_json_value (obj fs) = are_json_fields fs
  is_json_value (arr vs) = are_json_items vs
  is_json_value null = true
  is_json_value (bool b) = true
  is_json_value (int n) = true
  is_json_value (str s) = true

  pub are_json_fields : Fields → Bool
  are_json_fields end = true
  are_json_fields (field k v fs) = is_json_value v && are_json_fields fs

  pub are_json_items : Items → Bool
  are_json_items nil = true
  are_json_items (cons v vs) = is_json_value v && are_json_items vs

-- An entry at its place among sorted keys.
insert_field : String → Value → Fields → Fields
insert_field k v end = field k v end
insert_field k v (field j w fs) =
    let rest = insert_field k v fs in
    if text_le k j then field k v (field j w fs) else field j w rest

unfoldable mutual
  unfolding insert_field

  pub canonical : Value → Value
  canonical (obj fs) = obj (canonical_fields fs)
  canonical (arr vs) = arr (canonical_items vs)
  canonical null = null
  canonical (bool b) = bool b
  canonical (int n) = int n
  canonical (float f) = float f
  canonical (str s) = str s

  pub canonical_fields : Fields → Fields
  canonical_fields end = end
  canonical_fields (field k v fs) = insert_field k (canonical v) (canonical_fields fs)

  pub canonical_items : Items → Items
  canonical_items nil = nil
  canonical_items (cons v vs) = cons (canonical v) (canonical_items vs)

has-insert_field :
    (k j : String) (v : Value) (fs : Fields)
    → has (entries (insert_field k v fs)) j ≡ (k == j || has (entries fs) j)
unfolding insert_field
has-insert_field k j v end = refl
has-insert_field k j v (field i w fs) = elim (Bool-cases (text_le k i)) [
  | inl before ↦ rw before refl
  | inr after ↦ rw (after, has-insert_field k j v fs) (ground arith)
]

-- Sorting keeps the keys.
pub has-canonical_fields :
    (fs : Fields) (j : String) → has (entries (canonical_fields fs)) j ≡ has (entries fs) j
unfolding canonical
has-canonical_fields end j = refl
has-canonical_fields (field k v fs) j =
    has-insert_field k j (canonical v) (canonical_fields fs)
    ∙ ap (λ (b : Bool). k == j || b) (has-canonical_fields fs j)

lookup-insert_field :
    (k j : String) (v : Value) (fs : Fields)
    → lookup (entries (insert_field k v fs)) j ≡ (if k == j then some v else lookup (entries fs) j)
unfolding insert_field
lookup-insert_field k j v end = refl
lookup-insert_field k j v (field i w fs) = elim (Bool-cases (text_le k i)) [
  | inl before ↦ rw before refl
  | inr after ↦
      let different : (k == i) ≡ false = text_le-false k i after in
      rw (after, lookup-insert_field k j v fs)
        (ground (arith, string_eq.equal_iff k j, string_eq.equal_iff i j, string_eq.equal_iff k i))
]

-- Sorting keeps what is under each key.
pub lookup-canonical_fields :
    (fs : Fields) (j : String)
    → lookup (entries (canonical_fields fs)) j ≡ map_option canonical (lookup (entries fs) j)
unfolding canonical
lookup-canonical_fields end j = refl
lookup-canonical_fields (field k v fs) j =
    lookup-insert_field k j (canonical v) (canonical_fields fs)
    ∙ rw (lookup-canonical_fields fs j) (ground arith)

canonical_sorts :
    canonical (obj (field "b" null (field "a" (arr (cons (int (pos 1)) nil)) end)))
    ≡ obj (field "a" (arr (cons (int (pos 1)) nil)) (field "b" null end))
unfolding canonical
canonical_sorts = refl
