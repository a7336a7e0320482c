-- ===== src/Mcp/Tools/Arguments.antt =====
-- strArg, boolArg and intArg: the arguments of a tool.
use backrest_operator.Prelude.{Bytes, Bool, false, none, some, or_text}
use backrest_operator.Prelude.Int.{ℤ}
use backrest_operator.Prelude.Dict.{lookup}
use backrest_operator.Mcp.Calls.{Json, Args}

-- args[key], where a missing key and a missing map read as nil
abbrev pub arg_at : Args → Bytes → Json
arg_at none key = Json.null
arg_at (some args) key = elim (lookup key args) [ none ↦ Json.null | some v ↦ v ]

abbrev pub text_or : Json → Bytes → Bytes
text_or (Json.text s) def = or_text s def
text_or _ def = def

abbrev pub flag_of : Json → Bool
flag_of (Json.flag b) = b
flag_of _ = false

-- a number of a JSON text is a float64, cut to an int
abbrev pub number_or : Json → ℤ → ℤ
number_or (Json.number n) def = n
number_or _ def = def

abbrev pub str_arg : Args → Bytes → Bytes → Bytes
str_arg args key def = text_or (arg_at args key) def

abbrev pub bool_arg : Args → Bytes → Bool
bool_arg args key = flag_of (arg_at args key)

abbrev pub int_arg : Args → Bytes → ℤ → ℤ
int_arg args key def = number_or (arg_at args key) def
