-- ===== src/Persister.antt =====
-- src/raft/src/core/persister.cpp and src/raft/include/core/persister.h: the two files on which a
-- node keeps its state and its snapshot.
pub mod Restore
use raft_kvstorage.Common.{
  ℕ, Bool, true, false, ◌&&◌, ◌||◌, List, [], ◌∷◌, Bytes, length, leb, ◌==◌, if◌then◌else◌,
}

-- The files' contents, and `_M_stateFileSize`. `opens` says whether the directory lets the files be
-- opened: a stream on a file that is not open reads and writes nothing, and the code goes on.
pub record Disk : Type 0 where
  pub opens : Bool
  pub state_file : Bytes
  pub snapshot_file : Bytes
  pub state_file_size : ℕ

-- isspace in the C locale: the blank, and \t \n \v \f \r.
unfoldable pub is_space : ℕ → Bool
is_space c = c == 32 || (leb 9 c && leb c 13)

unfoldable pub skip_spaces : Bytes → Bytes
skip_spaces [] = []
skip_spaces (c ∷ cs) = if is_space c then skip_spaces cs else c ∷ cs

-- The characters up to a blank or the end; `true` if a blank ended them. At the end of the file
-- the stream sets `eofbit`, after which `good()` is false.
unfoldable pub take_word : Bytes → Bytes × Bool
take_word [] = ([], false)
take_word (c ∷ cs) =
    if is_space c then ([], true) else let (w, good) = take_word cs in (c ∷ w, good)

-- What `ifs >> str` leaves in `str`, and `ifs.good()` after it. Where only blanks are left, the
-- extraction fails and `str` stays as it was.
unfoldable pub extract : Bytes → Bytes → Bytes × Bool
unfolding skip_spaces take_word
extract content str = elim (skip_spaces content) [ [] ↦ (str, false) | c ∷ cs ↦ take_word (c ∷ cs) ]

-- The constructor opens both files for writing, which truncates them.
unfoldable pub init_persister : Disk → Disk
init_persister d =
    if d.opens
    then record d { state_file = []; snapshot_file = []; state_file_size = 0 }
    else record d { state_file_size = 0 }

unfoldable pub persist_state : Bytes → Disk → Disk
persist_state state d = record d {
  state_file = if d.opens then state else d.state_file;
  state_file_size = length state;
}

unfoldable pub persist_snapshot : Bytes → Disk → Disk
persist_snapshot shot d = record d { snapshot_file = if d.opens then shot else d.snapshot_file }

-- `persist(state, snapshot)`.
unfoldable pub persist_both : Bytes → Bytes → Disk → Disk
unfolding persist_state persist_snapshot
persist_both state shot d = persist_snapshot shot (persist_state state d)

-- `loadState(state)`: the new value of its argument, and its result.
unfoldable pub load_state : Disk → Bytes → Bytes × Bool
unfolding extract
load_state d state = if d.opens then extract d.state_file state else (state, false)

unfoldable pub load_snapshot : Disk → Bytes → Bytes × Bool
unfolding extract
load_snapshot d shot = if d.opens then extract d.snapshot_file shot else (shot, false)

unfoldable pub load_state_size : Disk → ℕ
load_state_size d = d.state_file_size
