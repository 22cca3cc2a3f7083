-- ===== src/Admission/Patterns.antt =====
-- GRAPH_ID_RE, NODE_ID_RE and NAME_RE of ge_runtime/spec.py, as `re.match` reads them: `$` also
-- matches before a newline at the end.
use Prim.Native.Char.{code}
use Prim.Native.String.{[] as nil_str, ◌∷◌ as cons_str}
use hermes_graph_engineering.Base.{
  ℕ, zero, suc, String, Bool, true, false, ◌&&◌, ◌||◌, ◌≡◌, refl, leb, nat_beq, ◌==◌, string_eq,
}

abbrev pub between : ℕ → ℕ → ℕ → Bool
between lo hi c = leb lo c && leb c hi

abbrev pub is_lower : ℕ → Bool
is_lower = between b'a' b'z'

abbrev pub is_digit : ℕ → Bool
is_digit = between b'0' b'9'

-- `[a-z0-9]`
abbrev pub graph_id_start : ℕ → Bool
graph_id_start c = is_lower c || is_digit c

-- `[a-z0-9_-]`
abbrev pub graph_id_rest : ℕ → Bool
graph_id_rest c = is_lower c || is_digit c || nat_beq c b'_' || nat_beq c b'-'

-- `[a-z0-9_]`
abbrev node_id_rest : ℕ → Bool
node_id_rest c = is_lower c || is_digit c || nat_beq c b'_'

-- `[A-Za-z0-9_]`
abbrev name_start : ℕ → Bool
name_start c = between b'A' b'Z' c || is_lower c || is_digit c || nat_beq c b'_'

-- `[A-Za-z0-9_.-]`
abbrev name_rest : ℕ → Bool
name_rest c = name_start c || nat_beq c b'.' || nat_beq c b'-'

-- `$`, where one more character is left
abbrev pub ends_line : ℕ → String → Bool
ends_line c s = nat_beq c b'\n' && s == ""

-- `[…]{0,n}$`; no class has the newline, so there is nothing to go back for.
rest_matches : (ℕ → Bool) → ℕ → String → Bool
rest_matches p n nil_str = true
rest_matches p zero (cons_str c s) = ends_line (code c) s
rest_matches p (suc n) (cons_str c s) = (p (code c) && rest_matches p n s) || ends_line (code c) s

-- `^[…][…]{0,63}$`
identifier : (ℕ → Bool) → (ℕ → Bool) → String → Bool
unfolding rest_matches
identifier start rest nil_str = false
identifier start rest (cons_str c s) = start (code c) && rest_matches rest 63 s

unfoldable pub is_graph_id : String → Bool
unfolding identifier rest_matches
is_graph_id s = identifier graph_id_start graph_id_rest s

unfoldable pub is_node_id : String → Bool
unfolding identifier rest_matches
is_node_id s = identifier is_lower node_id_rest s

unfoldable pub is_name : String → Bool
unfolding identifier rest_matches
is_name s = identifier name_start name_rest s

node_ids :
    (is_node_id "plan_2" ≡ true)
    × (is_node_id "Plan" ≡ false)
    × (is_node_id "" ≡ false)
    × (is_node_id "a-b" ≡ false)
unfolding is_node_id identifier rest_matches
node_ids = (refl, refl, refl, refl)

-- A newline at the end is accepted.
node_id_newline : is_node_id "plan\n" ≡ true
unfolding is_node_id identifier rest_matches
node_id_newline = refl
