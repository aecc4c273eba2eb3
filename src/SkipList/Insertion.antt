-- ===== src/SkipList/Insertion.antt =====
-- `_M_insert` puts one node into the list that the skip list stands for.
use raft_kvstorage.Common.{
  ℕ, ◌+◌, ◌<◌, ◌≤◌, ◌≡◌, ◌≢◌, refl, sym, ap, ◌∙◌, subst, true, ◌&&◌, List, [], ◌∷◌, ◌++◌, All, none,
  some, Bytes, bytes_eq, length, length-append, ltb, ◌==◌, if◌then◌else◌, arith,
}
use raft_kvstorage.SkipList.{
  SkipNode, SkipList, bytes_lt, max_level, head, new_node, set_node, link,
}
use raft_kvstorage.SkipList.Chain.{
  next_at, last_at, low, rest, IsLinked, IsSorted, AllMade, IsSkipList,
}
use raft_kvstorage.SkipList.Search.{node_with, linked-forward}
use raft_kvstorage.SkipList.Link.{SameData, link-SameData, link-forward}
use raft_kvstorage.SkipList.Splice.{Apart, Distinct, last_at-Apart, last_at-forward, splice}
use raft_kvstorage.SkipList.Sorted.{
  low-append-rest, AllBelow-low, AllAbove-rest, Distinct-IsSorted, All-append_parts,
  Distinct-append, Apart-last_at, AllMade-Apart, AllAbove-same, IsSorted-same, IsSorted-splice,
  AllMade-splice, node_with-splice, node_with-Apart,
}

-- A fact about every node but the new one.
All-Apart {ℓ} :
    (P : ℕ → Type ℓ) (a : ℕ) (xs : List ℕ) → ((x : ℕ) → x ≢ a → P x) → Apart a xs → All P xs
All-Apart P a [] f d = tt
All-Apart P a (x ∷ xs) f d = (f x d.0, All-Apart P a xs f d.1)

All-zip {ℓ κ μ} :
    (P : ℕ → Type ℓ) (Q : ℕ → Type κ) (R : ℕ → Type μ) (xs : List ℕ)
    → ((x : ℕ) → P x → Q x → R x)
    → All P xs
    → All Q xs
    → All R xs
All-zip P Q R [] f p q = tt
All-zip P Q R (x ∷ xs) f p q = (f x p.0 q.0, All-zip P Q R xs f p.1 q.1)

module _ (n : ℕ) (pre : ℕ → ℕ) (k v : Bytes) (s : SkipList) (xs : List ℕ) (i : IsSkipList s xs)
    (pos : 0 < n) (bound : n ≤ max_level) (absent : node_with s.heap k xs ≡ none)
    (pres : (j : ℕ) → pre j ≡ last_at s.heap j head (low s.heap k xs)) where
  abbrev pub made : ℕ → SkipNode
  made = link s.fresh 0 pre n (set_node s.fresh (new_node n k v) s.heap)

  abbrev pub before : List ℕ
  before = low s.heap k xs

  abbrev pub after : List ℕ
  after = rest s.heap k xs

  whole : before ++ after ≡ xs
  whole = low-append-rest s.heap k xs

  distinct : Distinct (before ++ after)
  distinct = rw whole (Distinct-IsSorted s.heap xs i.sorted)

  not_head : Apart head before × Apart head after
  not_head =
      All-append_parts (λ x. x ≢ head) before after
        (rw whole (AllMade-Apart s.heap s.fresh s.level_now xs i.made).0)

  not_new : Apart s.fresh before × Apart s.fresh after
  not_new =
      All-append_parts (λ x. x ≢ s.fresh) before after
        (rw whole (AllMade-Apart s.heap s.fresh s.level_now xs i.made).1)

  pub head_old : head ≢ s.fresh
  head_old e = omega (arith, e, i.begun)

  pub pre_old : (j : ℕ) → pre j ≢ s.fresh
  pre_old j = rw (pres j) (last_at-Apart s.heap j head s.fresh before head_old not_new.0)

  pre_below : (j : ℕ) → Apart (pre j) after
  pre_below j = rw (pres j) (
      Apart-last_at s.heap j head before after not_head.1 (Distinct-append before after distinct).1)

  pub old : (x : ℕ) → x ≢ s.fresh → SameData (made x) (s.heap x)
  unfolding set_node
  old x ne =
      let same = link-SameData s.fresh pre n 0 (set_node s.fresh (new_node n k v) s.heap) x in
      record {
        key = ground (arith, same.key);
        value = ground (arith, same.value);
        level = ground (arith, same.level);
      }

  pub new : SameData (made s.fresh) (new_node n k v)
  unfolding set_node
  new =
      let same = link-SameData s.fresh pre n 0 (set_node s.fresh (new_node n k v) s.heap) s.fresh in
      record {
        key = ground (arith, same.key);
        value = ground (arith, same.value);
        level = ground (arith, same.level);
      }

  pub old_forward :
      (x j : ℕ)
      → x ≢ s.fresh
      → (made x).forward j ≡ (if ltb j n && x == pre j then some s.fresh else (s.heap x).forward j)
  unfolding set_node
  old_forward x j ne =
      ground
        (arith, link-forward s.fresh pre n 0 (set_node s.fresh (new_node n k v) s.heap) x j pre_old)

  new_forward : (j : ℕ) → j < n → (made s.fresh).forward j ≡ (s.heap (pre j)).forward j
  unfolding set_node
  new_forward j lt = ground (
    arith,
    link-forward s.fresh pre n 0 (set_node s.fresh (new_node n k v) s.heap) s.fresh j pre_old,
    pre_old j,
  )

  leads : (j : ℕ) → j < n → (s.heap (pre j)).forward j ≡ next_at s.heap j after
  leads j lt = rw (pres j) (
      last_at-forward s.heap j head head before after
        (rw whole (linked-forward s.heap j head xs i.linked (omega (arith, bound, i.head_level))))
        (rw whole i.linked))

  pub made-IsLinked : IsLinked made head (before ++ s.fresh ∷ after)
  made-IsLinked =
      splice s.heap made s.fresh n pre (λ x ne. (old x ne).level) new.level old_forward new_forward
        head (λ j. head) before after pos head_old not_new.0 not_new.1 not_head.0
        (Distinct-append before after distinct).0 pre_below leads (λ j lt. refl) pres
        (rw whole i.linked)

  keys : All (λ x. (made x).key ≡ (s.heap x).key) (before ++ after)
  keys = rw whole (
      All-Apart (λ x. (made x).key ≡ (s.heap x).key) s.fresh xs (λ x ne. (old x ne).key)
        (AllMade-Apart s.heap s.fresh s.level_now xs i.made).1)

  levels : All (λ x. (made x).level ≡ (s.heap x).level) (before ++ after)
  levels = rw whole (
      All-Apart (λ x. (made x).level ≡ (s.heap x).level) s.fresh xs (λ x ne. (old x ne).level)
        (AllMade-Apart s.heap s.fresh s.level_now xs i.made).1)

  keys_parts :
      All (λ x. (made x).key ≡ (s.heap x).key) before
      × All (λ x. (made x).key ≡ (s.heap x).key) after
  keys_parts = All-append_parts (λ x. (made x).key ≡ (s.heap x).key) before after keys

  below : All (λ x. bytes_lt (made x).key (made s.fresh).key ≡ true) before
  below = rw new.key (
      All-zip (λ x. (made x).key ≡ (s.heap x).key) (λ x. bytes_lt (s.heap x).key k ≡ true)
        (λ x. bytes_lt (made x).key k ≡ true) before (λ x e lt. rw e lt) keys_parts.0
        (AllBelow-low s.heap k xs))

  pub made-IsSorted : IsSorted made (before ++ s.fresh ∷ after)
  made-IsSorted =
      IsSorted-splice made s.fresh before after below
        (rw new.key (
          AllAbove-same s.heap made k after keys_parts.1
            (AllAbove-rest s.heap k xs i.sorted absent)))
        (IsSorted-same s.heap made (before ++ after) keys (rw whole i.sorted))

  pub made-AllMade :
      (l : ℕ) → n ≤ l → s.level_now ≤ l → AllMade made (s.fresh + 1) l (before ++ s.fresh ∷ after)
  made-AllMade l le le' =
      AllMade-splice s.heap made s.fresh s.level_now l s.fresh before after
        (i.begun, omega arith, omega (arith, new.level, le), le') levels (rw whole i.made)

  pub made_length : s.counter + 1 ≡ length (before ++ s.fresh ∷ after)
  made_length = omega (
    arith,
    i.counted,
    ap length whole,
    length-append {0} before after,
    length-append {0} before (s.fresh ∷ after),
  )

  -- The node is found under its key, and the others as before.
  pub made_node_with :
      (k' : Bytes)
      → node_with made k' (before ++ s.fresh ∷ after)
        ≡ (if bytes_eq k k' then some s.fresh else node_with s.heap k' xs)
  made_node_with k' =
      node_with-splice s.heap made s.fresh k' before after keys (
        subst (λ y. All (λ x. bytes_lt (s.heap x).key y ≡ true) before) (sym new.key)
          (AllBelow-low s.heap k xs))
      ∙ rw (new.key, whole) refl

  -- A node that a search among the old ones finds has its old value.
  pub made_value :
      (k' : Bytes) (a : ℕ) → node_with s.heap k' xs ≡ some a → (made a).value ≡ (s.heap a).value
  made_value k' a e =
      (old a (
        node_with-Apart s.heap k' s.fresh a xs
          (AllMade-Apart s.heap s.fresh s.level_now xs i.made).1 e)).value
