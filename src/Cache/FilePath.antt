-- ===== src/Cache/FilePath.antt =====
-- What the source uses of `std::path` on Unix, over texts, and the place that a path names.
use drv_thru.Base.{List, [], ◌∷◌, ◌++◌, Option, none, some, if◌then◌else◌, ◌||◌}
use drv_thru.Text.{Text, codes, is_empty, text_eq, starts_with, ends_with, rsplit_once, split}

-- `Path::join`.
unfoldable pub join : Text → Text → Text
unfolding starts_with ends_with
join dir path =
    if starts_with (codes "/") path
    then path
    else if is_empty dir || ends_with (codes "/") dir
    then dir ++ path
    else dir ++ b'/' ∷ path

abbrev pub extension_of_parts : Option (Text × Text) → Option Text
extension_of_parts none = none
extension_of_parts (some ([], after)) = none
extension_of_parts (some (c ∷ before, after)) = some after

-- `Path::extension` of a path that is one component: what follows the last dot, unless nothing
-- stands before it.
unfoldable pub extension : Text → Option Text
unfolding text_eq rsplit_once
extension name =
    if text_eq name (codes "..") then none else extension_of_parts (rsplit_once b'.' name)

-- One component of a path, read from the place that is reached so far, innermost first.
abbrev pub enter : List Text → Text → List Text
enter place part =
    if text_eq part [] || text_eq part (codes ".")
    then place
    else if text_eq part (codes "..")
    then parent place
    else part ∷ place
  where
    parent : List Text → List Text
    parent [] = []
    parent (p ∷ ps) = ps

unfoldable pub walk : List Text → List Text → List Text
walk place [] = place
walk place (part ∷ parts) = walk (enter place part) parts

-- The place that a path names, by its components alone, innermost first.
unfoldable pub place_of : Text → List Text
unfolding walk
place_of path = walk [] (split b'/' path)
