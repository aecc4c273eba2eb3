-- ===== src/Table.antt =====
-- What src/raft/src/core/kvServer.cpp uses of its data table, and its records by client.
use raft_kvstorage.Common.{
  ◌≡◌, ◌≢◌, refl, ap, sym, true, false, List, [], ◌∷◌, Option, none, some, Bytes, bytes_eq,
  bytes_eq_iff, if◌then◌else◌, arith, Bool-cases, inl, inr,
}

-- `find`, `operator[]` with an assignment, and the contents in order, of a `kvskiplist`; `insert`
-- leaves the value of a key that is there.
pub record Table (T : Type 0) : Type 0 where
  pub find : Bytes → T → Option Bytes
  pub assign : Bytes → Bytes → T → T
  pub insert : Bytes → Bytes → T → T
  pub contents : T → List (Bytes × Bytes)

-- The first value if there is one.
abbrev pub or_else {ℓ} : {A : Type ℓ} → Option A → Option A → Option A
or_else none o = o
or_else (some a) o = some a

-- An `unordered_map` by strings.
unfoldable pub lookup {ℓ} : {A : Type ℓ} → Bytes → List (Bytes × A) → Option A
lookup k [] = none
lookup k ((k', a) ∷ m) = if bytes_eq k k' then some a else lookup k m

-- `m[k] = a`.
unfoldable pub store {ℓ} : {A : Type ℓ} → Bytes → A → List (Bytes × A) → List (Bytes × A)
store k a [] = (k, a) ∷ []
store k a ((k', b) ∷ m) =
    let rest = store k a m in if bytes_eq k k' then (k, a) ∷ m else (k', b) ∷ rest

pub record IsTable (T : Type 0) ⦃t : Table T⦄ : Type 0 where
  pub find-assign : (k v : Bytes) (u : T) → t.find k (t.assign k v u) ≡ some v
  pub find-assign_other :
      (k k' v : Bytes) (u : T) → k ≢ k' → t.find k' (t.assign k v u) ≡ t.find k' u
  pub find-insert :
      (k v : Bytes) (u : T) → t.find k (t.insert k v u) ≡ or_else (t.find k u) (some v)
  pub find-insert_other :
      (k k' v : Bytes) (u : T) → k ≢ k' → t.find k' (t.insert k v u) ≡ t.find k' u
  pub find-contents : (k : Bytes) (u : T) → t.find k u ≡ lookup k (t.contents u)

pub bytes_eq_self : (k : Bytes) → bytes_eq k k ≡ true
bytes_eq_self k = (bytes_eq_iff k k).1 refl

pub bytes_eq_other : (k k' : Bytes) → k ≢ k' → bytes_eq k k' ≡ false
bytes_eq_other k k' ne = elim (Bool-cases (bytes_eq k k')) [
  | inl e ↦ absurd (ne ((bytes_eq_iff k k').0 e))
  | inr e ↦ e
]

pub lookup-store {ℓ} :
    {A : Type ℓ} (k : Bytes) (a : A) (m : List (Bytes × A)) → lookup k (store k a m) ≡ some a
unfolding lookup store
lookup-store k a [] = ground (arith, bytes_eq_self k)
lookup-store k a ((k', b) ∷ m) = ground (arith, bytes_eq_self k, lookup-store k a m)

pub lookup-store_other {ℓ} :
    {A : Type ℓ} (k k' : Bytes) (a : A) (m : List (Bytes × A))
    → k ≢ k'
    → lookup k' (store k a m) ≡ lookup k' m
unfolding lookup store
lookup-store_other k k' a [] ne = ground (arith, bytes_eq_other k' k λ e. ne (sym e))
lookup-store_other k k' a ((k'', b) ∷ m) ne = elim (Bool-cases (bytes_eq k k'')) [
  | inl same ↦
      let e = (bytes_eq_iff k k'').0 same in
      ground (arith, same, bytes_eq_other k' k λ e. ne (sym e), ap (bytes_eq k') e)
  | inr other ↦ ground (arith, other, lookup-store_other k k' a m ne)
]
