-- ===== src/Rpc/Config.antt =====
-- The configuration file, src/rpc/mprpcConfig.cpp.
use raft_kvstorage.Common.{
  ℕ, ◌-◌, Bool, true, ◌&&◌, ◌||◌, List, [], ◌∷◌, ◌++◌, Option, none, some, Bytes, ◌==◌,
  if◌then◌else◌,
}
use raft_kvstorage.Table.{lookup}
use raft_kvstorage.Scheduler.{is_empty}
use raft_kvstorage.Rpc.Provider.{insert_new}

abbrev pub newline : ℕ
newline = 10

abbrev pub space : ℕ
space = b' '

-- What `fgets` with a buffer of 512 bytes reads in turn, until the end of the file: a line with its
-- newline, or 511 bytes of one; `room` bytes are free behind `line`. The last read finds the end.
unfoldable pub read_lines : ℕ → Bytes → Bytes → List Bytes
read_lines room line [] = line ∷ []
read_lines room line (b ∷ bs) =
    let rest = read_lines 511 [] bs in
    let more = read_lines (room - 1) (line ++ b ∷ []) bs in
    if b == newline || room == 1 then (line ++ b ∷ []) ∷ rest else more

-- A buffer as a string: up to the first null byte.
unfoldable pub until_null : Bytes → Bytes
until_null [] = []
until_null (b ∷ bs) = let rest = until_null bs in if b == 0 then [] else b ∷ rest

unfoldable pub without_front : Bytes → Bytes
without_front [] = []
without_front (b ∷ bs) = let rest = without_front bs in if b == space then rest else b ∷ bs

unfoldable pub without_back : Bytes → Bytes
without_back [] = []
without_back (b ∷ bs) =
    let rest = without_back bs in if b == space && is_empty rest then [] else b ∷ rest

-- `_M_trim`: a string of spaces stays as it is.
unfoldable pub trim : Bytes → Bytes
unfolding without_front without_back
trim bs = if is_empty (without_back bs) then bs else without_front (without_back bs)

-- The parts before and behind the first equals sign.
unfoldable pub split : Bytes → Option (Bytes × Bytes)
split [] = none
split (b ∷ bs) =
    let rest = split bs in
    if b == b'='
    then some ([], bs)
    else elim rest [ none ↦ none | some (key, value) ↦ some (b ∷ key, value) ]

abbrev pub is_comment : Bytes → Bool
is_comment [] = true
is_comment (b ∷ bs) = b == b'#'

-- The body of the loop of `load`.
unfoldable pub load_line : Bytes → List (Bytes × Bytes) → List (Bytes × Bytes)
unfolding until_null trim split insert_new
load_line line config =
    let text = trim (until_null line) in
    if is_comment text then config else elim (split text) [
      | none ↦ config
      | some (key, value) ↦ insert_new (trim key) (trim value) config
    ]

unfoldable pub load_lines : List Bytes → List (Bytes × Bytes) → List (Bytes × Bytes)
unfolding load_line
load_lines [] config = config
load_lines (line ∷ lines) config = load_lines lines (load_line line config)

-- `load` of a file that opens.
unfoldable pub load_file : Bytes → List (Bytes × Bytes) → List (Bytes × Bytes)
unfolding read_lines load_lines
load_file bytes config = load_lines (read_lines 511 [] bytes) config

-- `value`.
unfoldable pub config_value : Bytes → List (Bytes × Bytes) → Bytes
unfolding lookup
config_value key config = elim (lookup key config) [ none ↦ [] | some v ↦ v ]
