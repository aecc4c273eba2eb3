-- ===== src/SkipList.antt =====
-- The class kvskiplist of src/raft/include/core/kvSkipList.h, at strings, with std::greater. The
-- nodes stand in a heap by address; the head's address is 0.
pub mod Order
pub mod Chain
pub mod Search
pub mod Find
pub mod Precursors
pub mod Link
pub mod Splice
pub mod Sorted
pub mod Insertion
pub mod Insert
pub mod Assign
pub mod Clear
pub mod Unlink
pub mod Removal
pub mod Remove
pub mod Stored
use raft_kvstorage.Common.{
  ℕ, zero, suc, ◌+◌, ◌-◌, Bool, true, false, ◌&&◌, ◌||◌, List, [], ◌∷◌, Option, none, some, Bytes,
  ltb, leb, ◌==◌, if◌then◌else◌,
}

-- The order of std::string: by the first byte that differs, and a prefix comes first. The code's
-- `_Comp<_Key>{}(a, b)` is `bytes_lt b a`.
unfoldable pub bytes_lt : Bytes → Bytes → Bool
bytes_lt [] [] = false
bytes_lt [] (y ∷ ys) = true
bytes_lt (x ∷ xs) [] = false
bytes_lt (x ∷ xs) (y ∷ ys) = let rest = bytes_lt xs ys in if x == y then rest else ltb x y

-- `node`. The array `forward` has `level` cells.
pub record SkipNode : Type 0 where
  pub key : Bytes
  pub value : Bytes
  pub level : ℕ
  pub forward : ℕ → Option ℕ

-- `fresh` is the address that the allocator hands out next; an address is not used again.
pub record SkipList : Type 0 where
  pub heap : ℕ → SkipNode
  pub fresh : ℕ
  pub level_now : ℕ
  pub counter : ℕ

abbrev pub max_level : ℕ
max_level = 32

abbrev pub head : ℕ
head = 0

abbrev pub new_node : ℕ → Bytes → Bytes → SkipNode
new_node level key value = record { key = key; value = value; level = level; forward = λ l. none }

unfoldable pub empty_list : SkipList
empty_list = record { heap = λ a. new_node max_level [] []; fresh = 1; level_now = 1; counter = 0 }

unfoldable pub set_node : ℕ → SkipNode → (ℕ → SkipNode) → ℕ → SkipNode
set_node a n heap b = if a == b then n else heap b

unfoldable pub set_forward : ℕ → ℕ → Option ℕ → (ℕ → SkipNode) → ℕ → SkipNode
unfolding set_node
set_forward a l o heap =
    set_node a (record (heap a) { forward = λ j. if l == j then o else (heap a).forward j }) heap

-- The inner loop of a search: forward on level `l` while the next key is smaller than `k`. The
-- first argument bounds the rounds.
unfoldable pub advance : ℕ → (ℕ → SkipNode) → Bytes → ℕ → ℕ → ℕ
unfolding bytes_lt
advance zero heap k l cur = cur
advance (suc fuel) heap k l cur = elim ((heap cur).forward l) [
  | none ↦ cur
  | some next ↦
      let rest = advance fuel heap k l next in if bytes_lt (heap next).key k then rest else cur
]

-- The outer loop, from level `l - 1` down to 0.
unfoldable pub descend : ℕ → (ℕ → SkipNode) → Bytes → ℕ → ℕ → ℕ
unfolding advance
descend fuel heap k zero cur = cur
descend fuel heap k (suc l) cur = descend fuel heap k l (advance fuel heap k l cur)

-- The test after a search: the node behind `pre`, unless its key is greater.
unfoldable pub node_after : (ℕ → SkipNode) → Bytes → ℕ → Option ℕ
node_after heap k pre = elim ((heap pre).forward 0) [
  | none ↦ none
  | some a ↦ if bytes_lt k (heap a).key then none else some a
]

-- `find`: an iterator, that is an address or the end.
unfoldable pub find : Bytes → SkipList → Option ℕ
unfolding descend node_after
find k s = node_after s.heap k (descend s.counter s.heap k s.level_now head)

-- The value that the iterator of `find` shows.
unfoldable pub read_value : Bytes → SkipList → Option Bytes
unfolding find
read_value k s = elim (find k s) [ none ↦ none | some a ↦ some (s.heap a).value ]

-- `_M_findPrecursors`. The cells of `pre` from `level_now` on stay as they were.
unfoldable pub precursors : ℕ → (ℕ → SkipNode) → Bytes → ℕ → ℕ → (ℕ → ℕ) → ℕ → ℕ
unfolding advance
precursors fuel heap k zero cur pre = pre
precursors fuel heap k (suc l) cur pre =
    let c = advance fuel heap k l cur in
    precursors fuel heap k l c (λ j. if l == j then c else pre j)

unfoldable pub find_precursors : Bytes → SkipList → ℕ → ℕ
unfolding precursors
find_precursors k s = precursors s.counter s.heap k s.level_now head (λ l. head)

-- `_M_randomLevel` on the bits that `rand` yields; where they run out, the next one is 0.
unfoldable pub random_level : ℕ → List Bool → ℕ
random_level level [] = level
random_level level (bit ∷ bits) =
    let rest = random_level (level + 1) bits in if bit && ltb level max_level then rest else level

-- The last loop of `_M_insert`: `n` levels from `l` on, at each of which the node `a` comes in
-- behind `pre l`.
unfoldable pub link : ℕ → ℕ → (ℕ → ℕ) → ℕ → (ℕ → SkipNode) → ℕ → SkipNode
unfolding set_forward
link a l pre zero heap = heap
link a l pre (suc n) heap =
    link a (l + 1) pre n
      (set_forward (pre l) l (some a) (set_forward a l ((heap (pre l)).forward l) heap))

-- `_M_insert` of a node with `node_level` levels.
unfoldable pub insert_node : ℕ → (ℕ → ℕ) → Bytes → Bytes → SkipList → SkipList
unfolding link set_node
insert_node node_level pre k v s =
    let grows = ltb s.level_now node_level in
    let all : ℕ → ℕ = λ l. if leb s.level_now l then head else pre l in
    record {
      heap =
          link s.fresh 0 (if grows then all else pre) node_level
            (set_node s.fresh (new_node node_level k v) s.heap);
      fresh = s.fresh + 1;
      level_now = if grows then node_level else s.level_now;
      counter = s.counter + 1;
    }

-- `insert`, and the value that `operator[]` inserts.
unfoldable pub insert : ℕ → Bytes → Bytes → SkipList → SkipList
unfolding find_precursors insert_node
insert node_level k v s =
    let pre = find_precursors k s in
    elim (node_after s.heap k (pre 0)) [ none ↦ insert_node node_level pre k v s | some a ↦ s ]

-- `(*this)[k] = v`.
unfoldable pub assign : ℕ → Bytes → Bytes → SkipList → SkipList
unfolding find_precursors insert set_node
assign node_level k v s =
    let t = insert node_level k [] s in
    elim ((t.heap (find_precursors k s 0)).forward 0) [
      | none ↦ t
      | some a ↦ record t { heap = set_node a (record (t.heap a) { value = v }) t.heap }
    ]

abbrev pub is_at : ℕ → Option ℕ → Bool
is_at a none = false
is_at a (some b) = a == b

-- The loop of `remove` over `n` levels from `l` on; it stops at the first that does not lead to `a`.
unfoldable pub unlink : ℕ → ℕ → (ℕ → ℕ) → ℕ → (ℕ → SkipNode) → ℕ → SkipNode
unfolding set_forward
unlink a l pre zero heap = heap
unlink a l pre (suc n) heap =
    let rest = unlink a (l + 1) pre n (set_forward (pre l) l ((heap a).forward l) heap) in
    if is_at a ((heap (pre l)).forward l) then rest else heap

-- `while(_M_level_now > 1 && nullptr == _M_head->forward[_M_level_now-1]) --_M_level_now`.
unfoldable pub shrink : (ℕ → SkipNode) → ℕ → ℕ
shrink heap zero = 0
shrink heap (suc l) =
    let rest = shrink heap l in
    elim ((heap head).forward l) [ none ↦ if ltb 0 l then rest else 1 | some a ↦ suc l ]

-- `remove`.
unfoldable pub remove : Bytes → SkipList → SkipList
unfolding find_precursors node_after unlink shrink
remove k s =
    let pre = find_precursors k s in
    elim (node_after s.heap k (pre 0)) [
      | none ↦ s
      | some a ↦
          let heap = unlink a 0 pre s.level_now s.heap in
          record s { heap = heap; level_now = shrink heap s.level_now; counter = s.counter - 1 }
    ]

-- `clear`.
unfoldable pub clear : SkipList → SkipList
unfolding set_node
clear s = record s {
  heap =
      set_node head
        (record (s.heap head) {
          forward = λ l. if ltb l s.level_now || l == 0 then none else (s.heap head).forward l;
        })
        s.heap;
  level_now = 1;
  counter = 0;
}

-- The loop of `dump`: keys and values along level 0.
unfoldable pub walk : ℕ → (ℕ → SkipNode) → Option ℕ → List (Bytes × Bytes)
walk zero heap o = []
walk (suc fuel) heap none = []
walk (suc fuel) heap (some a) = ((heap a).key, (heap a).value) ∷ walk fuel heap ((heap a).forward 0)

unfoldable pub contents : SkipList → List (Bytes × Bytes)
unfolding walk
contents s = walk s.counter s.heap ((s.heap head).forward 0)
