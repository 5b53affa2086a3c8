-- ===== src/Server/Arguments.antt =====
-- `parse_arguments` of crates/mirum-server/src/main.rs. An argument is a text; one that is not UTF-8
-- is another unknown argument in the source.
pub mod Accepted
use mirum.Base.{
  String, ◌<>◌, Bool, true, false, ◌||◌, Option, none, some, List, [], ◌∷◌, Result, ok, err, ◌=s=◌,
  if◌then◌else◌,
}

-- What the loop does with an argument.
pub data Argument : Type 0 where
  config_flag help_flag unknown : Argument

unfoldable pub argument_of : String → Argument
argument_of argument =
    if argument =s= "--config"
    then config_flag
    else if argument =s= "--help" || argument =s= "-h"
    then help_flag
    else unknown

abbrev pub unknown_argument : String → Result String (Option String)
unknown_argument argument = err ("unknown argument " <> argument)

-- After the loop.
abbrev pub required : Option String → Result String (Option String)
required none = err "--config is required"
required (some path) = ok (some path)

-- The loop over the arguments that are left: the path of the file, or nothing for `--help`.
unfoldable pub parse_loop : Option String → List String → Result String (Option String)
parse_loop config [] = required config
parse_loop config (argument ∷ []) = elim (argument_of argument) [
  | config_flag ↦ elim config [
    | some _ ↦ err "--config may only be specified once"
    | none ↦ err "--config requires a path"
  ]
  | help_flag ↦ ok none
  | unknown ↦ unknown_argument argument
]
parse_loop config (argument ∷ path ∷ rest) = elim (argument_of argument) [
  | config_flag ↦ elim config [
    | some _ ↦ err "--config may only be specified once"
    | none ↦
        let more = parse_loop (some path) rest in
        if path =s= "" then err "--config requires a non-empty path" else more
  ]
  | help_flag ↦ ok none
  | unknown ↦ unknown_argument argument
]

unfoldable pub parse_arguments : List String → Result String (Option String)
parse_arguments arguments = parse_loop none arguments
