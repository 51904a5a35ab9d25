-- ===== src/Paths/Pure.antt =====
-- The part of `pathlib` (posix) that the program uses and that does not read the disk.
pub mod Relative
use agent_coderag.Prelude.{
  Bool, true, false, not, ◌||◌, Option, none, some, List, [], ◌∷◌, ◌++◌, Text, text, ◌==◌, text_eq,
  nat_eq, if◌then◌else◌, is_empty,
}
use mathlib.Core.List.{reverse}
use agent_coderag.Core.{Outcome, ok, raised, value_error}

-- A path is absolute or not, and has its parts, the first directory first.
pub record FilePath : Type 0 where
  pub absolute : Bool
  pub parts : List Text

-- The pieces between slashes, without empty ones and without `.`; `part` is held in reverse.
unfoldable pub add_part : Text → List Text → List Text
add_part part parts = if is_empty part || part == text "." then parts else reverse part ∷ parts

unfoldable pub split_parts : Text → Text → List Text
split_parts [] part = add_part part []
split_parts (c ∷ s) part =
    let ended = add_part part (split_parts s []) in
    let longer = split_parts s (c ∷ part) in if c == b'/' then ended else longer

-- `Path(s)`
unfoldable pub of_text : Text → FilePath
of_text s = record {
  absolute = elim s [ [] ↦ false | c ∷ _ ↦ c == b'/' ];
  parts = split_parts s [];
}

unfoldable pub join_parts : List Text → Text
join_parts [] = []
join_parts (p ∷ []) = p
join_parts (p ∷ q ∷ parts) = p ++ (b'/' ∷ join_parts (q ∷ parts))

-- `as_posix()`, which `str` agrees with on posix.
unfoldable pub as_posix : FilePath → Text
as_posix p =
    if p.absolute
    then b'/' ∷ join_parts p.parts
    else if is_empty p.parts
    then text "."
    else join_parts p.parts

-- `p / q`
unfoldable pub joinpath : FilePath → FilePath → FilePath
joinpath p q = if q.absolute then q else record p { parts = p.parts ++ q.parts }

-- `p / name` for the name of one file.
unfoldable pub join_name : FilePath → Text → FilePath
join_name p name = record p { parts = p.parts ++ (name ∷ []) }

unfoldable pub drop_last : List Text → List Text
drop_last [] = []
drop_last (p ∷ []) = []
drop_last (p ∷ q ∷ parts) = p ∷ drop_last (q ∷ parts)

-- `p.parent`: the root is its own parent.
unfoldable pub parent : FilePath → FilePath
parent p = record p { parts = drop_last p.parts }

-- What is left of the second list after the first.
unfoldable pub strip_parts : List Text → List Text → Option (List Text)
strip_parts [] parts = some parts
strip_parts (r ∷ root) [] = none
strip_parts (r ∷ root) (p ∷ parts) = if p == r then strip_parts root parts else none

unfoldable pub same_bool : Bool → Bool → Bool
same_bool true b = b
same_bool false b = not b

-- `p.relative_to(root)`
unfoldable pub relative_to : FilePath → FilePath → Outcome FilePath
relative_to p root =
    if same_bool p.absolute root.absolute
    then elim (strip_parts root.parts p.parts) [
      | none ↦ raised value_error
      | some parts ↦ ok (record { absolute = false; parts = parts })
    ]
    else raised value_error

-- `p.is_relative_to(root)`
unfoldable pub is_relative_to : FilePath → FilePath → Bool
is_relative_to p root = elim (relative_to p root) [ ok _ ↦ true | raised _ ↦ false ]

unfoldable pub file_name : List Text → Text
file_name [] = []
file_name (p ∷ []) = p
file_name (p ∷ q ∷ parts) = file_name (q ∷ parts)

-- The text from the last dot of a reversed name on; the dot must not be the first character of
-- the name or its last.
unfoldable pub suffix_from : Text → Text → Text
suffix_from [] ext = []
suffix_from (c ∷ front) ext =
    if c == b'.'
    then (if is_empty front || is_empty ext then [] else b'.' ∷ ext)
    else suffix_from front (c ∷ ext)

-- `p.suffix`
unfoldable pub suffix : FilePath → Text
suffix p = suffix_from (reverse (file_name p.parts)) []
