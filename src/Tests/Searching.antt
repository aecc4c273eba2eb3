-- ===== src/Tests/Searching.antt =====
-- A skip list with two nodes, the second one on two levels.
use raft_kvstorage.Common.{◌≡◌, refl, true, [], ◌∷◌, none, some, arith, ◌==◌, if◌then◌else◌}
use raft_kvstorage.SkipList.{
  SkipList, max_level, new_node, empty_list, insert, assign, remove, find, contents, node_after,
  bytes_lt,
}
use raft_kvstorage.SkipList.Chain.{IsSkipList}
use raft_kvstorage.SkipList.Remove.{Removes, remove_lem}
use raft_kvstorage.SkipList.Stored.{Stored, stored, stored-IsTable}
use raft_kvstorage.Table.{IsTable}

abbrev two : SkipList
two = record {
  heap = λ a.
      if a == 0
      then record (new_node max_level [] []) {
        forward = λ l. if l == 0 then some 2 else if l == 1 then some 1 else none;
      }
      else if a == 1
      then new_node 2 (5 ∷ []) (50 ∷ [])
      else record (new_node 1 (3 ∷ []) (30 ∷ [])) {
        forward = λ l. if l == 0 then some 1 else none;
      };
  fresh = 3;
  level_now = 2;
  counter = 2;
}

two-IsSkipList : IsSkipList two (2 ∷ 1 ∷ [])
unfolding bytes_lt
two-IsSkipList = record {
  linked = (λ l h. ground arith, omega arith, (λ l h. ground arith, omega arith, λ l h. refl));
  sorted = ((refl, tt), (tt, tt));
  counted = refl;
  head_level = refl;
  made = omega arith;
  begun = omega arith;
  bottom = omega arith;
  top = omega arith;
}

remove_lem_example : Removes (5 ∷ []) two (2 ∷ 1 ∷ []) two-IsSkipList (remove (5 ∷ []) two)
remove_lem_example = remove_lem (5 ∷ []) two (2 ∷ 1 ∷ []) two-IsSkipList

-- `rand` yields one odd number for each node, and then an even one.
stored-IsTable_example : IsTable Stored ⦃t = stored (λ a. true ∷ [])⦄
stored-IsTable_example = stored-IsTable (λ a. true ∷ [])

-- The code's list after it has inserted key 5 on two levels and key 3 on one.
abbrev made : SkipList
made = assign 1 (3 ∷ []) (30 ∷ []) (insert 2 (5 ∷ []) (50 ∷ []) empty_list)

made_contents : contents made ≡ (3 ∷ [], 30 ∷ []) ∷ (5 ∷ [], 50 ∷ []) ∷ []
unfolding contents assign insert empty_list node_after
made_contents = refl

remove_first : contents (remove (3 ∷ []) made) ≡ (5 ∷ [], 50 ∷ []) ∷ []
unfolding contents assign insert empty_list node_after remove
remove_first = refl

find_second : find (5 ∷ []) made ≡ some 1
unfolding find assign insert empty_list node_after
find_second = refl
