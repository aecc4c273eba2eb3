-- ===== src/SkipList/Stored.antt =====
-- The skip list as the table that the server takes it for.
use raft_kvstorage.Common.{
  ℕ, ◌+◌, ◌<◌, ◌≤◌, ◌≡◌, refl, Bool, inl, inr, Option-cases, List, [], ◌∷◌, Option, none, some,
  Bytes, bytes_eq, bytes_eq_iff, map, if◌then◌else◌, arith,
}
use raft_kvstorage.Table.{Table, IsTable, or_else, lookup, bytes_eq_self, bytes_eq_other}
use raft_kvstorage.SkipList.{
  SkipNode, SkipList, max_level, random_level, insert, assign, read_value, contents,
}
use raft_kvstorage.SkipList.Chain.{IsSkipList}
use raft_kvstorage.SkipList.Search.{node_with}
use raft_kvstorage.SkipList.Find.{find_lem, contents_lem}
use raft_kvstorage.SkipList.Insert.{insert_lem}
use raft_kvstorage.SkipList.Assign.{assign_lem}

-- `_M_randomLevel` comes back with a level that the head has.
pub random_level_bounds :
    (level : ℕ) (bits : List Bool)
    → level ≤ max_level
    → (level ≤ random_level level bits) × (random_level level bits ≤ max_level)
unfolding random_level
random_level_bounds level [] h = omega arith
random_level_bounds level (bit ∷ bits) h = ground (arith, random_level_bounds (level + 1) bits)

-- A skip list that is in order.
pub record Stored : Type 0 where
  pub list : SkipList
  pub nodes : List ℕ
  pub shape : IsSkipList list nodes

-- `rand` yields the bits `coins a` when the node at the address `a` is made.
module _ (coins : ℕ → List Bool) where
  level_of : SkipList → ℕ
  unfolding random_level
  level_of s = random_level 1 (coins s.fresh)

  level_bounds : (s : SkipList) → (0 < level_of s) × (level_of s ≤ max_level)
  unfolding level_of
  level_bounds s =
      let (low, high) = random_level_bounds 1 (coins s.fresh) (omega arith) in
      (omega (arith, low), high)

  pub stored_insert : Bytes → Bytes → Stored → Stored
  stored_insert k v u =
      let (low, high) = level_bounds u.list in
      let (ys, i, _) = insert_lem (level_of u.list) k v u.list u.nodes u.shape low high in
      record { list = insert (level_of u.list) k v u.list; nodes = ys; shape = i }

  pub stored_assign : Bytes → Bytes → Stored → Stored
  stored_assign k v u =
      let (low, high) = level_bounds u.list in
      let (ys, i, _) = assign_lem (level_of u.list) k v u.list u.nodes u.shape low high in
      record { list = assign (level_of u.list) k v u.list; nodes = ys; shape = i }

  abbrev pub stored : Table Stored
  stored = record {
    find = λ k u. read_value k u.list;
    assign = stored_assign;
    insert = stored_insert;
    contents = λ u. contents u.list;
  }

lookup-map :
    (h : ℕ → SkipNode) (k : Bytes) (xs : List ℕ)
    → lookup k (map (λ x. ((h x).key, (h x).value)) xs)
      ≡ elim (node_with h k xs) as (λ o. Option Bytes) [ none ↦ none | some a ↦ some (h a).value ]
unfolding lookup
lookup-map h k [] = refl
lookup-map h k (x ∷ xs) =
    ground (arith, bytes_eq_iff k (h x).key, bytes_eq_iff (h x).key k, lookup-map h k xs)

module _ (coins : ℕ → List Bool) where
  assigned :
      (k v k' : Bytes) (u : Stored)
      → read_value k' (stored_assign coins k v u).list
        ≡ (if bytes_eq k k' then some v else read_value k' u.list)
  unfolding stored_assign
  assigned k v k' u =
      let (low, high) = level_bounds coins u.list in
      (assign_lem (level_of coins u.list) k v u.list u.nodes u.shape low high).2 k'

  inserted :
      (k v k' : Bytes) (u : Stored)
      → read_value k' (stored_insert coins k v u).list
        ≡ (if bytes_eq k k' then or_else (read_value k u.list) (some v) else read_value k' u.list)
  unfolding stored_insert
  inserted k v k' u =
      let (low, high) = level_bounds coins u.list in
      (insert_lem (level_of coins u.list) k v u.list u.nodes u.shape low high).2 k'

  listed : (k : Bytes) (u : Stored) → read_value k u.list ≡ lookup k (contents u.list)
  unfolding read_value
  listed k u = elim (Option-cases (node_with u.list.heap k u.nodes)) [
    | inl e ↦ ground (
      arith,
      find_lem k u.list u.nodes u.shape,
      e,
      lookup-map u.list.heap k u.nodes,
      contents_lem u.list u.nodes u.shape,
    )
    | inr (a, e) ↦ ground (
      arith,
      find_lem k u.list u.nodes u.shape,
      e,
      lookup-map u.list.heap k u.nodes,
      contents_lem u.list u.nodes u.shape,
    )
  ]

  -- The skip list keeps all that the server asks of its table.
  pub stored-IsTable : IsTable Stored ⦃t = stored coins⦄
  stored-IsTable = record {
    find-assign = λ k v u. ground (arith, assigned k v k u, bytes_eq_self k);
    find-assign_other = λ k k' v u ne. ground (arith, assigned k v k' u, bytes_eq_other k k' ne);
    find-insert = λ k v u. ground (arith, inserted k v k u, bytes_eq_self k);
    find-insert_other = λ k k' v u ne. ground (arith, inserted k v k' u, bytes_eq_other k k' ne);
    find-contents = listed;
  }
