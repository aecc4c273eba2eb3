-- ===== src/Persister/Restore.antt =====
-- What comes back from the files that persister.cpp writes.
use raft_kvstorage.Common.{
  ◌<◌, ◌≤◌, ◌≡◌, refl, true, false, [], ◌∷◌, Bytes, arith, length, All, ◌≢◌,
}
use raft_kvstorage.Persister.{
  Disk, is_space, skip_spaces, take_word, extract, persist_both, load_snapshot, load_state,
  init_persister,
}

abbrev pub NoSpaces : Bytes → Type 0
NoSpaces = All (λ c. is_space c ≡ false)

skip_spaces-le : (xs : Bytes) → length (skip_spaces xs) ≤ length xs
unfolding skip_spaces
skip_spaces-le [] = omega arith
skip_spaces-le (x ∷ xs) = ground (arith, skip_spaces-le xs)

-- A word that a blank ended is shorter than the text.
take_word-lt : (xs : Bytes) → (take_word xs).1 ≡ true → length (take_word xs).0 < length xs
unfolding take_word
take_word-lt [] h = cc
take_word-lt (x ∷ xs) h = ground (arith, take_word-lt xs)

extract-lt : (xs into : Bytes) → (extract xs into).1 ≡ true → length (extract xs into).0 < length xs
unfolding extract
extract-lt xs into h = ground (arith, take_word-lt (skip_spaces xs), skip_spaces-le xs)

take_word-NoSpaces : (xs : Bytes) → NoSpaces xs → take_word xs ≡ (xs, false)
unfolding take_word
take_word-NoSpaces [] h = refl
take_word-NoSpaces (x ∷ xs) h = ground (arith, take_word-NoSpaces xs)

-- Whenever loading a snapshot reports success, what it delivers is strictly shorter than the
-- snapshot last persisted: the result `true` needs a blank in the file, at which reading stops.
load_snapshot-persist_both_lt :
    (state shot into : Bytes) (d : Disk)
    → d.opens ≡ true
    → (load_snapshot (persist_both state shot d) into).1 ≡ true
    → length (load_snapshot (persist_both state shot d) into).0 < length shot
unfolding load_snapshot persist_both
load_snapshot-persist_both_lt state shot into d o h = ground (arith, extract-lt shot into)

-- A non-empty snapshot without blanks is read back whole, and yet the result is `false`.
load_snapshot-persist_both :
    (state shot into : Bytes) (d : Disk)
    → d.opens ≡ true
    → NoSpaces shot
    → shot ≢ []
    → load_snapshot (persist_both state shot d) into ≡ (shot, false)
unfolding load_snapshot persist_both extract skip_spaces
load_snapshot-persist_both state [] into d o h ne = absurd (ne refl)
load_snapshot-persist_both state (c ∷ cs) into d o h ne =
    ground (arith, take_word-NoSpaces (c ∷ cs) h)

-- The constructor empties the files, so nothing that an earlier process persisted is loaded.
pub load_state-init_persister :
    (d : Disk) (into : Bytes) → load_state (init_persister d) into ≡ (into, false)
unfolding load_state init_persister extract skip_spaces
load_state-init_persister d into = ground arith
