-- ===== src/SkipList/Clear.antt =====
-- `clear`, and the list as the constructor leaves it.
use raft_kvstorage.Common.{ℕ, ◌≤◌, ◌≡◌, refl, List, [], ◌∷◌, none, Bytes, arith}
use raft_kvstorage.SkipList.{SkipNode, SkipList, head, set_node, read_value, clear, empty_list}
use raft_kvstorage.SkipList.Chain.{next_at, AllMade, IsSkipList}
use raft_kvstorage.SkipList.Search.{linked-forward}
use raft_kvstorage.SkipList.Find.{find_lem}

next_at-AllMade :
    (h : ℕ → SkipNode) (fresh n l : ℕ) (xs : List ℕ)
    → AllMade h fresh n xs
    → n ≤ l
    → next_at h l xs ≡ none
next_at-AllMade h fresh n l [] m le = refl
next_at-AllMade h fresh n l (x ∷ xs) m le =
    ground (arith, m.2, next_at-AllMade h fresh n l xs m.3 le)

pub empty_list-IsSkipList : IsSkipList empty_list []
unfolding empty_list
empty_list-IsSkipList = record {
  linked = λ l lt. refl;
  sorted = tt;
  made = tt;
  begun = omega arith;
  counted = refl;
  head_level = refl;
  bottom = omega arith;
  top = omega arith;
}

clear-IsSkipList : (s : SkipList) (xs : List ℕ) → IsSkipList s xs → IsSkipList (clear s) []
unfolding clear set_node
clear-IsSkipList s xs i = record {
  linked = λ l lt. ground (
    arith,
    linked-forward s.heap l head xs i.linked,
    i.head_level,
    next_at-AllMade s.heap s.fresh s.level_now l xs i.made,
  );
  sorted = tt;
  made = tt;
  begun = i.begun;
  counted = refl;
  head_level = ground (arith, i.head_level);
  bottom = omega arith;
  top = omega arith;
}

-- `clear` leaves a list without nodes, at which every search comes to the end.
pub clear_lem :
    (s : SkipList) (xs : List ℕ)
    → IsSkipList s xs
    → IsSkipList (clear s) [] × ((k : Bytes) → read_value k (clear s) ≡ none)
unfolding read_value
clear_lem s xs i =
    let j = clear-IsSkipList s xs i in (j, λ k. ground (arith, find_lem k (clear s) [] j))
