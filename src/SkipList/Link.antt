-- ===== src/SkipList/Link.antt =====
-- The loop of `_M_insert` that puts a node into the chains of its levels.
use raft_kvstorage.Common.{
  ℕ, zero, suc, ◌+◌, ◌≡◌, ◌≢◌, refl, ◌&&◌, some, ltb, leb, ◌==◌, if◌then◌else◌, arith,
}
use raft_kvstorage.SkipList.{SkipNode, set_forward, link}

-- Only forward pointers are written.
pub record SameData (x y : SkipNode) : Type 0 where
  pub key : x.key ≡ y.key
  pub value : x.value ≡ y.value
  pub level : x.level ≡ y.level

module _ (a : ℕ) (pre : ℕ → ℕ) where
  pub link-SameData :
      (n l : ℕ) (heap : ℕ → SkipNode) (x : ℕ) → SameData (link a l pre n heap x) (heap x)
  unfolding link set_forward
  link-SameData zero l heap x = record { key = refl; value = refl; level = refl }
  link-SameData (suc n) l heap x =
      let heap' =
        set_forward (pre l) l (some a) (set_forward a l ((heap (pre l)).forward l) heap) in
      let ih = link-SameData n (l + 1) heap' x in
      record {
        key = ground (arith, ih.key);
        value = ground (arith, ih.value);
        level = ground (arith, ih.level);
      }

  pub link-forward :
      (n l : ℕ) (heap : ℕ → SkipNode) (x j : ℕ)
      → ((i : ℕ) → pre i ≢ a)
      → (link a l pre n heap x).forward j ≡ (
          if leb l j && ltb j (l + n)
          then (if x == a
              then (heap (pre j)).forward j
              else if x == pre j
              then some a
              else (heap x).forward j)
          else (heap x).forward j)
  unfolding link set_forward
  link-forward zero l heap x j other = ground arith
  link-forward (suc n) l heap x j other =
      let heap' =
        set_forward (pre l) l (some a) (set_forward a l ((heap (pre l)).forward l) heap) in
      ground (arith, link-forward n (l + 1) heap' x j other, other l, other j)
