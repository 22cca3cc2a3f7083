-- ===== src/Values/Data.antt =====
-- JSON values and the type names of contracts. A finite `float` is an integer over a power of two,
-- which is what the format stores, so comparisons are exact, as Python's are.
use Prim.Native.Char.{code}
use Prim.Native.String.{[] as nil_str, ◌∷◌ as cons_str, count}
use hermes_graph_engineering.Base.{
  ℕ, String, Bool, true, false, ◌&&◌, ◌||◌, not, Option, none, some, List, [], ◌∷◌, leb, nat_beq,
  Table, length,
}
use hermes_graph_engineering.Base.Int.{ℤ, pos, leb_ℤ, shift_left}

-- `finite m k` is m / 2 ^ k.
pub data Float : Type 0 where
  finite : ℤ → ℕ → Float
  infinity neg_infinity nan : Float

mutual
  pub data Fields : Type 0 where
    end : Fields
    field : String → Value → Fields → Fields

  pub data Value : Type 0 where
    null : Value
    bool : Bool → Value
    int : ℤ → Value
    float : Float → Value
    str : String → Value
    obj : Fields → Value
    arr : Items → Value

  pub data Items : Type 0 where
    nil : Items
    cons : Value → Items → Items

abbrev pub items : Items → List Value
items nil = []
items (cons v vs) = v ∷ items vs

abbrev pub entries : Fields → Table String Value
entries end = []
entries (field k v fs) = (k, v) ∷ entries fs

-- The object with the entries of a dictionary.
abbrev pub fields_of : Table String Value → Fields
fields_of [] = end
fields_of ((k, v) ∷ t) = field k v (fields_of t)

pub data ValueType : Type 0 where
  string number integer boolean object array any : ValueType

-- Numbers in comparisons: an `int` is the float that it equals.
abbrev pub le_float : Float → Float → Bool
le_float nan b = false
le_float (finite m k) (finite n j) = leb_ℤ (shift_left m j) (shift_left n k)
le_float (finite m k) infinity = true
le_float (finite m k) neg_infinity = false
le_float (finite m k) nan = false
le_float infinity infinity = true
le_float infinity b = false
le_float neg_infinity nan = false
le_float neg_infinity b = true

abbrev pub eq_float : Float → Float → Bool
eq_float a b = le_float a b && le_float b a

-- The operand of an order: a `bool` is an `int`, and any other type raises TypeError.
abbrev pub order_operand : Value → Option Float
order_operand (bool true) = some (finite (pos 1) 0)
order_operand (bool false) = some (finite (pos 0) 0)
order_operand (int n) = some (finite n 0)
order_operand (float f) = some f
order_operand null = none
order_operand (str s) = none
order_operand (arr vs) = none
order_operand (obj fs) = none

-- The characters that `str.strip` takes off.
abbrev pub is_space : ℕ → Bool
is_space c =
    (leb 9 c && leb c 13)
    || (leb 28 c && leb c 32)
    || nat_beq c 0x85
    || nat_beq c 0xa0
    || nat_beq c 0x1680
    || (leb 0x2000 c && leb c 0x200a)
    || nat_beq c 0x2028
    || nat_beq c 0x2029
    || nat_beq c 0x202f
    || nat_beq c 0x205f
    || nat_beq c 0x3000

-- `bool(s.strip())`
unfoldable pub has_text : String → Bool
has_text nil_str = false
has_text (cons_str c s) = not (is_space (code c)) || has_text s

-- The characters of a text, each as a text: what iteration over a `str` gives.
pub characters : String → List String
characters nil_str = []
characters (cons_str c s) = (cons_str c nil_str) ∷ characters s

-- `len(v)` for `str`, `list` and `dict`; any other type has none.
abbrev pub sized : Value → Option ℕ
sized (str s) = some (count s)
sized (arr vs) = some (length (items vs))
sized (obj fs) = some (length (entries fs))
sized null = none
sized (bool b) = none
sized (int n) = none
sized (float f) = none
