-- ===== src/SkipList/Order.antt =====
-- The order of keys.
use raft_kvstorage.Common.{◌≡◌, ◌≢◌, refl, true, false, [], ◌∷◌, Bytes, arith}
use raft_kvstorage.SkipList.{bytes_lt}

pub bytes_lt_irrefl : (xs : Bytes) → bytes_lt xs xs ≡ false
unfolding bytes_lt
bytes_lt_irrefl [] = refl
bytes_lt_irrefl (x ∷ xs) = ground (arith, bytes_lt_irrefl xs)

pub bytes_lt_trans :
    (xs ys zs : Bytes) → bytes_lt xs ys ≡ true → bytes_lt ys zs ≡ true → bytes_lt xs zs ≡ true
unfolding bytes_lt
bytes_lt_trans [] [] zs p q = q
bytes_lt_trans [] (y ∷ ys) [] p q = cc
bytes_lt_trans [] (y ∷ ys) (z ∷ zs) p q = refl
bytes_lt_trans (x ∷ xs) [] zs p q = cc
bytes_lt_trans (x ∷ xs) (y ∷ ys) [] p q = cc
bytes_lt_trans (x ∷ xs) (y ∷ ys) (z ∷ zs) p q = ground (arith, bytes_lt_trans xs ys zs)

-- Keys neither of which is smaller are the same.
pub bytes_lt_antisym : (xs ys : Bytes) → bytes_lt xs ys ≡ false → bytes_lt ys xs ≡ false → xs ≡ ys
unfolding bytes_lt
bytes_lt_antisym [] [] p q = refl
bytes_lt_antisym [] (y ∷ ys) p q = cc
bytes_lt_antisym (x ∷ xs) [] p q = cc
bytes_lt_antisym (x ∷ xs) (y ∷ ys) p q = ground (arith, bytes_lt_antisym xs ys)

pub bytes_lt_other : (xs ys : Bytes) → bytes_lt xs ys ≡ true → xs ≢ ys
bytes_lt_other xs ys p e = ground (arith, bytes_lt_irrefl ys, rw e at p)
