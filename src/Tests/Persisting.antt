-- ===== src/Tests/Persisting.antt =====
-- persister.cpp at concrete files.
use raft_kvstorage.Common.{◌≡◌, refl, true, false, [], ◌∷◌}
use raft_kvstorage.Persister.{extract, is_space, load_state, init_persister}
use raft_kvstorage.Persister.Restore.{load_state-init_persister}
use raft_kvstorage.Tests.Inputs.{disk}

load_state-init_persister_example : load_state (init_persister (disk (1 ∷ []))) [] ≡ ([], false)
load_state-init_persister_example = load_state-init_persister (disk (1 ∷ [])) []

-- Blanks at the front are skipped.
extract_blanks : extract (32 ∷ 9 ∷ 65 ∷ 66 ∷ 10 ∷ 67 ∷ []) [] ≡ (65 ∷ 66 ∷ [], true)
unfolding extract is_space
extract_blanks = refl
