-- ===== src/Script/Syntax.antt =====
-- The syntax trees that processing/script works on, after the ESTree conventions: a node has a type,
-- the places where it starts and ends, and named fields.
--
-- A `number` is a numeral that is a natural number. `other` is any further value of a literal, a
-- fraction, a regular expression or a big integer, by what `String` makes of it. A field that a
-- node does not have reads as `absent`, and as a node of no type where a node is asked for.
use testcafe_hammerhead.Common.{
  ℕ, zero, suc, ◌/◌, ◌%◌, String, Bool, true, false, ◌&&◌, Option, none, str_eq, ◌==◌, ltb,
  if◌then◌else◌,
}
use Prim.Native.String.{◌++◌ as str_append}

pub record Span : Type 0 where
  pub start : Option ℕ
  pub end : Option ℕ
  pub origin_start : Option ℕ
  pub origin_end : Option ℕ

abbrev pub no_span : Span
no_span = record { start = none; end = none; origin_start = none; origin_end = none }

mutual
  pub data Node : Type 0 where
    tree : String → Span → Fields → Node

  pub data Fields : Type 0 where
    end_of_fields : Fields
    field : String → Value → Fields → Fields

  pub data Value : Type 0 where
    absent null : Value
    flag : Bool → Value
    number : ℕ → Value
    string : String → Value
    other : String → Value
    child : Node → Value
    children : Nodes → Value

  pub data Nodes : Type 0 where
    empty : Nodes
    item : Node → Nodes → Nodes
    gap : Nodes → Nodes

abbrev pub find_field : String → Fields → Value
find_field key end_of_fields = absent
find_field key (field k v rest) =
    let found = find_field key rest in if str_eq k key then v else found

abbrev pub set_field : String → Value → Fields → Fields
set_field key value end_of_fields = field key value end_of_fields
set_field key value (field k v rest) =
    let others = set_field key value rest in
    if str_eq k key then field k value rest else field k v others

abbrev pub type_of : Node → String
type_of (tree t s fs) = t

abbrev pub span_of : Node → Span
span_of (tree t s fs) = s

abbrev pub value_of : String → Node → Value
value_of key (tree t s fs) = find_field key fs

abbrev pub with_value : String → Value → Node → Node
with_value key value (tree t s fs) = tree t s (set_field key value fs)

abbrev pub no_node : Node
no_node = tree "" no_span end_of_fields

abbrev pub as_node : Value → Node
as_node (child n) = n
as_node _ = no_node

abbrev pub as_nodes : Value → Nodes
as_nodes (children ns) = ns
as_nodes _ = empty

abbrev pub as_text : Value → String
as_text (string s) = s
as_text _ = ""

abbrev pub as_flag : Value → Bool
as_flag (flag b) = b
as_flag _ = false

abbrev pub child_of : String → Node → Node
child_of key n = as_node (value_of key n)

abbrev pub children_of : String → Node → Nodes
children_of key n = as_nodes (value_of key n)

abbrev pub text_of : String → Node → String
text_of key n = as_text (value_of key n)

abbrev pub flag_of : String → Node → Bool
flag_of key n = as_flag (value_of key n)

abbrev pub is_type : String → Node → Bool
is_type t n = str_eq (type_of n) t

-- `value === s` for a text `s`.
abbrev pub equals_text : String → Value → Bool
equals_text s (string r) = str_eq r s
equals_text s _ = false

abbrev pub is_identifier : String → Node → Bool
is_identifier name n = is_type "Identifier" n && equals_text name (value_of "name" n)

abbrev pub count_nodes : Nodes → ℕ
count_nodes empty = 0
count_nodes (item n ns) = suc (count_nodes ns)
count_nodes (gap ns) = suc (count_nodes ns)

abbrev pub nth_node : Nodes → ℕ → Node
nth_node empty i = no_node
nth_node (item n ns) zero = n
nth_node (item n ns) (suc i) = nth_node ns i
nth_node (gap ns) zero = no_node
nth_node (gap ns) (suc i) = nth_node ns i

abbrev pub set_nth : Nodes → ℕ → Node → Nodes
set_nth empty i m = empty
set_nth (item n ns) zero m = item m ns
set_nth (item n ns) (suc i) m = item n (set_nth ns i m)
set_nth (gap ns) zero m = item m ns
set_nth (gap ns) (suc i) m = gap (set_nth ns i m)

-- Where a node stands when a transformer looks at it: in a field of its parent, and at an index of
-- that field if it holds an array. What a transformer has produced is not `is_placed`: the parent
-- still holds the node that it is to replace, and `parent.left === node` is false of it.
pub record Place : Type 0 where
  pub parent : Node
  pub key : String
  pub index : ℕ
  pub is_placed : Bool

abbrev pub is_at : String → Place → Bool
is_at key place = place.is_placed && str_eq place.key key

abbrev pub is_parent : String → Place → Bool
is_parent t place = is_type t place.parent

-- The decimal digits of a number, as `String` prints them.
abbrev pub digit : ℕ → String
digit n =
    if n == 0
    then "0"
    else if n == 1
    then "1"
    else if n == 2
    then "2"
    else if n == 3
    then "3"
    else if n == 4
    then "4"
    else if n == 5
    then "5"
    else if n == 6
    then "6"
    else if n == 7
    then "7"
    else if n == 8
    then "8"
    else "9"

unfoldable pub digits : ℕ → ℕ → String
digits zero n = ""
digits (suc fuel) n =
    let tens = digits fuel (n / 10) in
    if ltb n 10 then digit n else str_append tens (digit (n % 10))

unfoldable pub decimal : ℕ → String
unfolding digits
decimal n = digits (suc n) n

-- `String(value)`.
unfoldable pub string_of : Value → String
unfolding decimal
string_of absent = "undefined"
string_of null = "null"
string_of (flag true) = "true"
string_of (flag false) = "false"
string_of (number n) = decimal n
string_of (string s) = s
string_of (other s) = s
string_of (child n) = "[object Object]"
string_of (children ns) = "[object Array]"
