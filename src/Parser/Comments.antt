-- ===== src/Parser/Comments.antt =====
-- `_clean_comment` and `_extract_docstring`, with the `str` methods that they call.
use agent_coderag.Prelude.{
  ℕ, ◌-◌, Bool, false, ◌&&◌, ◌||◌, Option, none, some, List, [], ◌∷◌, ◌++◌, Text, text, ◌==◌,
  nat_eq, if◌then◌else◌, is_empty, leb, length, take, drop, starts_with,
}
use mathlib.Core.List.{reverse}
use agent_coderag.Prelude.Strip.{strip}
use agent_coderag.Parser.Tree.{Node, info}

-- `s.endswith(suffix)`
unfoldable pub ends_with : Text → Text → Bool
unfolding starts_with
ends_with s suffix = starts_with (reverse s) (reverse suffix)

-- The characters that end a line for `str.splitlines`; `\r\n` counts once.
unfoldable pub is_line_end : ℕ → Bool
unfolding nat_eq
is_line_end c =
    (leb 10 c && leb c 13) || (leb 28 c && leb c 30) || c == 133 || c == 8232 || c == 8233

-- The current line is held in reverse; a last line that is empty is not listed. The flag tells
-- that the last character was `\r`, whose `\n` belongs to the same line end.
unfoldable pub lines_from : Text → Bool → Text → List Text
unfolding is_line_end
lines_from [] cr [] = []
lines_from [] cr (l ∷ line) = reverse (l ∷ line) ∷ []
lines_from (c ∷ s) cr line =
    let ended = reverse line ∷ lines_from s (c == 13) [] in
    let longer = lines_from s false (c ∷ line) in
    let skipped = lines_from s false [] in
    if cr && c == 10 then skipped else if is_line_end c then ended else longer

unfoldable pub splitlines : Text → List Text
unfolding lines_from
splitlines s = lines_from s false []

-- `sep.join(parts)`
unfoldable pub join : Text → List Text → Text
join sep [] = []
join sep (p ∷ []) = p
join sep (p ∷ q ∷ parts) = p ++ (sep ++ join sep (q ∷ parts))

-- `for marker in markers: if line.startswith(marker): …; break`
unfoldable pub strip_marker : List Text → Text → Text
unfolding starts_with strip
strip_marker [] line = line
strip_marker (m ∷ markers) line =
    if starts_with line m then strip (drop (length m) line) else strip_marker markers line

abbrev markers : List Text
markers = text "///" ∷ text "//" ∷ text "/**" ∷ text "*" ∷ text "#" ∷ []

unfoldable pub clean_lines : List Text → List Text
unfolding strip_marker strip
clean_lines [] = []
clean_lines (l ∷ lines) =
    let line = strip_marker markers (strip l) in
    if is_empty line then clean_lines lines else line ∷ clean_lines lines

-- `s[:-2]`
unfoldable pub drop_last_two : Text → Text
drop_last_two s = take (length s - 2) s

unfoldable pub clean_comment : Text → Text
unfolding clean_lines splitlines join starts_with ends_with drop_last_two
clean_comment s =
    let opened = if starts_with s (text "/*") then drop 2 s else s in
    let closed = if ends_with opened (text "*/") then drop_last_two opened else opened in
    join (text "\n") (clean_lines (splitlines closed))

-- `part in s`
unfoldable pub has_part : Text → Text → Bool
unfolding starts_with
has_part part [] = is_empty part
has_part part (c ∷ s) = starts_with (c ∷ s) part || has_part part s

-- The comments before a node, from its siblings before it, the nearest first.
unfoldable pub comments_before : List Node → List Text → List Text
unfolding info has_part clean_comment strip
comments_before [] comments = comments
comments_before (n ∷ before) comments =
    let cleaned = clean_comment (strip (info n).content) in
    let found =
      if is_empty (info n).content || is_empty cleaned then comments else cleaned ∷ comments in
    let rest = comments_before before found in
    if has_part (text "comment") (info n).type then rest else comments

unfoldable pub extract_docstring : List Node → Option Text
unfolding comments_before join
extract_docstring before = elim (comments_before before []) [
  | [] ↦ none
  | c ∷ comments ↦ some (join (text "\n") (c ∷ comments))
]
