-- ===== src/Values/Equality.antt =====
-- `==` on JSON values, and the comparison that also wants the same type at the top.
use hermes_graph_engineering.Base.{
  Bool, true, false, ◌&&◌, Option, none, some, ◌==◌, string_eq, nat_beq, length, lookup,
}
use hermes_graph_engineering.Values.Data.{
  Float, Value, null, bool, int, float, str, arr, obj, Items, nil, cons, Fields, end, field,
  entries, order_operand, eq_float,
}

-- Two numbers, `bool` among them, are compared by their values.
abbrev same_number : Option Float → Option Float → Bool
same_number (some a) (some b) = eq_float a b
same_number _ _ = false

-- Objects are equal when they have as many entries and each of one is in the other.
unfoldable mutual
  pub py_eq : Value → Value → Bool
  py_eq null null = true
  py_eq (str s) (str t) = s == t
  py_eq (arr vs) (arr ws) = py_eq_items vs ws
  py_eq (obj fs) (obj gs) =
      nat_beq (length (entries fs)) (length (entries gs)) && py_eq_fields fs gs
  py_eq (bool a) w = same_number (order_operand (bool a)) (order_operand w)
  py_eq (int a) w = same_number (order_operand (int a)) (order_operand w)
  py_eq (float a) w = same_number (order_operand (float a)) (order_operand w)
  py_eq v w = false

  pub py_eq_items : Items → Items → Bool
  py_eq_items nil nil = true
  py_eq_items (cons v vs) (cons w ws) = py_eq v w && py_eq_items vs ws
  py_eq_items vs ws = false

  pub py_eq_fields : Fields → Fields → Bool
  py_eq_fields end gs = true
  py_eq_fields (field k v fs) gs =
      elim (lookup (entries gs) k) [ none ↦ false | some w ↦ py_eq v w ] && py_eq_fields fs gs

-- `type(v) is type(w)`
abbrev pub same_type : Value → Value → Bool
same_type null null = true
same_type (bool a) (bool b) = true
same_type (int a) (int b) = true
same_type (float a) (float b) = true
same_type (str a) (str b) = true
same_type (arr a) (arr b) = true
same_type (obj a) (obj b) = true
same_type v w = false

-- `type(v) is type(w) and v == w`
unfoldable pub strict_eq : Value → Value → Bool
strict_eq v w = same_type v w && py_eq v w
