-- ===== src/Script/Instrumented.antt =====
-- processing/script/instrumented.ts: the names of the methods and properties whose uses are rewritten.
use testcafe_hammerhead.Common.{String, Bool, List, [], ◌∷◌, str_eq, any_of}
use testcafe_hammerhead.Script.Syntax.{Value, string_of}

abbrev pub methods : List String
methods = "postMessage" ∷ "replace" ∷ "assign" ∷ []

abbrev pub properties : List String
properties = "href" ∷ "location" ∷ []

-- The test of `^(a|b|c)$`, whose alternatives have no special characters.
abbrev pub is_one_of : List String → String → Bool
is_one_of names s = any_of (str_eq s) names

unfoldable pub should_instrument_method : Value → Bool
unfolding string_of
should_instrument_method name = is_one_of methods (string_of name)

unfoldable pub should_instrument_property : Value → Bool
unfolding string_of
should_instrument_property name = is_one_of properties (string_of name)
