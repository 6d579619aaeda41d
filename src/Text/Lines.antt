-- ===== src/Text/Lines.antt =====
-- `str::trim`, `str::lines` and `str::split_whitespace`.
use drv_thru.Base.{List, [], ◌∷◌, ◌==◌, if◌then◌else◌, reverse}
use drv_thru.Text.Defs.{Text, is_whitespace, split, is_empty}

unfoldable pub trim_start : Text → Text
unfolding is_whitespace
trim_start [] = []
trim_start (c ∷ s) = let rest = trim_start s in if is_whitespace c then rest else c ∷ s

-- A character that is followed by white space only goes with it.
unfoldable pub trim_end : Text → Text
unfolding is_whitespace
trim_end [] = []
trim_end (c ∷ s) =
    let rest = trim_end s in
    if is_empty rest then if is_whitespace c then [] else c ∷ [] else c ∷ rest

unfoldable pub trim : Text → Text
unfolding trim_start trim_end
trim s = trim_end (trim_start s)

-- A line that ended in `\n` also loses one `\r` before it.
unfoldable pub strip_cr : Text → Text
strip_cr [] = []
strip_cr (c ∷ []) = if c == b'\r' then [] else c ∷ []
strip_cr (c ∷ d ∷ s) = c ∷ strip_cr (d ∷ s)

-- The last part of the split has no `\n` behind it: it is a line only if it is not empty.
unfoldable pub close_lines : List Text → List Text
unfolding strip_cr
close_lines [] = []
close_lines ([] ∷ []) = []
close_lines ((c ∷ s) ∷ []) = (c ∷ s) ∷ []
close_lines (line ∷ next ∷ parts) = strip_cr line ∷ close_lines (next ∷ parts)

unfoldable pub lines : Text → List Text
unfolding close_lines split
lines s = close_lines (split b'\n' s)

abbrev pub close_word : Text → List Text → List Text
close_word [] words = words
close_word (c ∷ w) words = reverse (c ∷ w) ∷ words

-- The word so far is kept with its last character first.
unfoldable pub words_from : Text → Text → List Text
unfolding is_whitespace
words_from word [] = close_word word []
words_from word (c ∷ s) =
    let closed = close_word word (words_from [] s) in
    let longer = words_from (c ∷ word) s in if is_whitespace c then closed else longer

unfoldable pub split_whitespace : Text → List Text
unfolding words_from
split_whitespace s = words_from [] s
