-- ===== src/ClientCache/Files.antt =====
-- The files of the local cache: which the mirror writes and the local server reads.
use drv_thru.Base.{ℕ, List, Option, none, some, length}
use drv_thru.Text.{Text}
use drv_thru.TextMap.{lookup}

abbrev pub Files : Type 0
Files = List (Text × List ℕ)

-- What `File::open` and the copy to the client give: the bytes that are copied.
pub data Opening : Type 0 where
  not_opened copy_failed : Opening
  copies : List ℕ → Opening

-- What `fs::metadata` gives: the length, with the file behind it.
pub data Stat : Type 0 where
  absent stat_failed : Stat
  present : ℕ → Opening → Stat

abbrev pub stat_of : Option (List ℕ) → Stat
stat_of none = absent
stat_of (some bytes) = present (length bytes) (copies bytes)

-- The disk that has these files, and no failure.
unfoldable pub disk_of : Files → Text → Stat
unfolding lookup
disk_of files path = stat_of (lookup path files)
