-- ===== src/Script/TempVariables.antt =====
-- processing/script/transformers/temp-variables.ts: the names of temporary variables.
use Prim.Native.Char.{code}
use Prim.Native.String.{◌++◌ as str_append}
use text.Mathlib.Text.{starts_with}
use testcafe_hammerhead.Common.{
  ℕ, String, Bool, true, false, ◌&&◌, ◌||◌, not, leb, truthy, ◌==◌, if◌then◌else◌,
}
use testcafe_hammerhead.Script.Syntax.{
  Node, Value, absent, null, flag, number, string, is_type, text_of, value_of, decimal, string_of,
}

abbrev pub temp_variable_prefix : String
temp_variable_prefix = "_hh$temp"

-- `generateName()`: the name for a value of the counter, which then goes up.
unfoldable pub generate_name : ℕ → String
unfolding decimal
generate_name counter = str_append temp_variable_prefix (decimal counter)

-- `replace(/[^a-zA-Z0-9]/g, '')`
abbrev pub is_alphanumeric : ℕ → Bool
is_alphanumeric c = leb 97 c && leb c 122 || leb 65 c && leb c 90 || leb 48 c && leb c 57

unfoldable pub alphanumerics : String → String
alphanumerics String.[] = ""
alphanumerics (String.◌∷◌ c s) =
    let rest = alphanumerics s in if is_alphanumeric (code c) then String.◌∷◌ c rest else rest

-- A value that JavaScript takes for true.
abbrev pub is_truthy : Value → Bool
is_truthy absent = false
is_truthy null = false
is_truthy (flag b) = b
is_truthy (number n) = not (n == 0)
is_truthy (string s) = truthy s
is_truthy _ = true

-- `generateName(baseName, void 0, index)`
unfoldable pub generate_index_name : String → ℕ → String
unfolding decimal
generate_index_name base_name index = str_append base_name (str_append "$i" (decimal index))

-- `generateName(baseName, key, index)`, for a base name that is not empty.
unfoldable pub generate_key_name : String → Node → ℕ → String
unfolding generate_index_name string_of alphanumerics
generate_key_name base_name key index =
    if is_type "Identifier" key
    then str_append base_name (str_append "$" (text_of "name" key))
    else if is_type "Literal" key && is_truthy (value_of "value" key)
    then str_append base_name (str_append "$" (alphanumerics (string_of (value_of "value" key))))
    else generate_index_name base_name index

abbrev pub is_hh_temp_variable : String → Bool
is_hh_temp_variable name = starts_with name temp_variable_prefix
