-- ===== src/Runtime/Qualify.antt =====
-- `qualifyHandlerName` of sdks/typescript/src/definition/ir.ts.
use dfsm.Prelude.{String, Bool, true, false, Option, none, some, ◌==◌, if◌then◌else◌}
use dfsm.Prelude.Text.{append}
use dfsm.Machine.{strip_prefix}

abbrev is_prefix : String → String → Bool
is_prefix p s = elim (strip_prefix p s) [ none ↦ false | some rest ↦ true ]

-- An absent or empty namespace changes nothing.
unfoldable pub qualify_handler_name : String → Option String → String
unfolding strip_prefix
qualify_handler_name name none = name
qualify_handler_name name (some namespace) =
    if namespace == ""
    then name
    else if is_prefix (append namespace ".") name
    then name
    else append namespace (append "." name)
