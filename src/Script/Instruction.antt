-- ===== src/Script/Instruction.antt =====
-- processing/script/instruction.ts: the functions that a processed script calls.
use testcafe_hammerhead.Common.{String}

abbrev pub get_location : String
get_location = "__get$Loc"

abbrev pub set_location : String
set_location = "__set$Loc"

abbrev pub get_property : String
get_property = "__get$"

abbrev pub set_property : String
set_property = "__set$"

abbrev pub call_method : String
call_method = "__call$"

abbrev pub process_script : String
process_script = "__proc$Script"

abbrev pub process_html : String
process_html = "__proc$Html"

abbrev pub get_eval : String
get_eval = "__get$Eval"

abbrev pub get_post_message : String
get_post_message = "__get$PostMessage"

abbrev pub get_proxy_url : String
get_proxy_url = "__get$ProxyUrl"

abbrev pub rest_array : String
rest_array = "__rest$Array"

abbrev pub array_from : String
array_from = "__arrayFrom$"

abbrev pub rest_object : String
rest_object = "__rest$Object"
