-- ===== src/Rpc/Lines.antt =====
-- What comes out of a line of the configuration file.
use raft_kvstorage.Common.{
  ℕ, ◌+◌, ◌-◌, ◌≡◌, ◌≢◌, refl, ap, ◌∙◌, subst, List, [], ◌∷◌, ◌++◌, All, All-append, length-append,
  length, ◌<◌, some, Bytes, arith,
}
use mathlib.Core.List.{append_assoc}
use raft_kvstorage.Table.{bytes_eq_self}
use raft_kvstorage.Rpc.Provider.{insert_new}
use raft_kvstorage.Rpc.Config.{
  newline, space, read_lines, until_null, without_front, without_back, trim, split, load_line,
  load_lines, load_file, config_value,
}

-- Bytes that stand for themselves in a key or a value.
abbrev pub Plain : ℕ → Type 0
Plain b = (b ≢ 0) × (b ≢ space) × (b ≢ b'=') × (b ≢ b'#') × (b ≢ newline)

-- Bytes of a line.
abbrev Inner : ℕ → Type 0
Inner b = (b ≢ 0) × (b ≢ space)

Plain-Inner : (bs : Bytes) → All Plain bs → All Inner bs
Plain-Inner [] p = tt
Plain-Inner (b ∷ bs) p = ((p.0.0, p.0.1), Plain-Inner bs p.1)

Plain-newline : (bs : Bytes) → All Plain bs → All (λ b. b ≢ newline) bs
Plain-newline [] p = tt
Plain-newline (b ∷ bs) p = (p.0.4, Plain-newline bs p.1)

read_lines-line :
    (line bs rest : Bytes) (room : ℕ)
    → All (λ b. b ≢ newline) bs
    → length bs + 1 < room
    → read_lines room line (bs ++ newline ∷ rest)
      ≡ (line ++ (bs ++ newline ∷ [])) ∷ read_lines 511 [] rest
unfolding read_lines
read_lines-line line [] rest room p lt = ground arith
read_lines-line line (b ∷ bs) rest room p lt =
    let more = read_lines-line (line ++ b ∷ []) bs rest (room - 1) p.1 (omega (arith, lt)) in
    ground (arith, more, append_assoc line (b ∷ []) (bs ++ newline ∷ []), p.0)

until_null-Inner : (bs : Bytes) → All Inner bs → until_null bs ≡ bs
unfolding until_null
until_null-Inner [] p = refl
until_null-Inner (b ∷ bs) p = ground (arith, until_null-Inner bs p.1, p.0.0)

without_back-Inner : (bs : Bytes) → All Inner bs → without_back bs ≡ bs
unfolding without_back
without_back-Inner [] p = refl
without_back-Inner (b ∷ bs) p = ground (arith, without_back-Inner bs p.1, p.0.1)

without_front-Inner : (bs : Bytes) → All Inner bs → without_front bs ≡ bs
unfolding without_front
without_front-Inner [] p = refl
without_front-Inner (b ∷ bs) p = ground (arith, p.0.1)

trim-Inner : (bs : Bytes) → All Inner bs → trim bs ≡ bs
unfolding trim
trim-Inner bs p = ground (arith, without_back-Inner bs p, without_front-Inner bs p)

split-key : (key value : Bytes) → All Plain key → split (key ++ b'=' ∷ value) ≡ some (key, value)
unfolding split
split-key [] value p = refl
split-key (b ∷ key) value p = ground (arith, split-key key value p.1, p.0.2)

module _ (b : ℕ) (key value : Bytes) (k : All Plain (b ∷ key)) (v : All Plain value) where
  value_Inner : All Inner (value ++ newline ∷ [])
  value_Inner =
      All-append Inner value (newline ∷ []) (Plain-Inner value v)
        ((λ e. omega (arith, e), λ e. omega (arith, e)), tt)

  line_Inner : All Inner ((b ∷ key) ++ b'=' ∷ (value ++ newline ∷ []))
  line_Inner =
      All-append Inner (b ∷ key) (b'=' ∷ (value ++ newline ∷ [])) (Plain-Inner (b ∷ key) k)
        ((λ e. omega (arith, e), λ e. omega (arith, e)), value_Inner)

  -- A line with a key and a value sets the key to the value and the newline, unless it is set.
  load_line-pair :
      (config : List (Bytes × Bytes))
      → load_line ((b ∷ key) ++ b'=' ∷ (value ++ newline ∷ [])) config
        ≡ insert_new (b ∷ key) (value ++ newline ∷ []) config
  unfolding load_line
  load_line-pair config =
      let line : Bytes = (b ∷ key) ++ b'=' ∷ (value ++ newline ∷ []) in
      ground (
        arith,
        until_null-Inner line line_Inner,
        trim-Inner line line_Inner,
        split-key (b ∷ key) (value ++ newline ∷ []) k,
        trim-Inner (b ∷ key) (Plain-Inner (b ∷ key) k),
        trim-Inner (value ++ newline ∷ []) value_Inner,
        k.0.3,
      )

  inner : All (λ c. c ≢ newline) ((b ∷ key) ++ b'=' ∷ value)
  inner =
      All-append (λ c. c ≢ newline) (b ∷ key) (b'=' ∷ value) (Plain-newline (b ∷ key) k)
        ((λ e. omega (arith, e)), Plain-newline value v)

  both :
      length key + length value < 500
      → read_lines 511 [] ((b ∷ key) ++ b'=' ∷ (value ++ newline ∷ []))
        ≡ ((b ∷ key) ++ b'=' ∷ (value ++ newline ∷ [])) ∷ [] ∷ []
  unfolding read_lines
  both short =
      subst (λ x. read_lines 511 [] x ≡ x ∷ [] ∷ [])
        (append_assoc (b ∷ key) (b'=' ∷ value) (newline ∷ []))
        (read_lines-line [] ((b ∷ key) ++ b'=' ∷ value) [] 511 inner
          (omega (arith, length-append {0} key (b'=' ∷ value), short)))

  stored :
      (line : Bytes)
      → load_line line [] ≡ insert_new (b ∷ key) (value ++ newline ∷ []) []
      → config_value (b ∷ key) (load_lines (line ∷ [] ∷ []) []) ≡ value ++ newline ∷ []
  unfolding config_value load_lines load_line
  stored line e = ground (arith, e, bytes_eq_self (b ∷ key))

  -- From a file of one line `key=value`, which fits the buffer, the value of the key is the one that
  -- was written with the newline behind it.
  config_value-load_file :
      length key + length value < 500
      → config_value (b ∷ key) (load_file ((b ∷ key) ++ b'=' ∷ (value ++ newline ∷ [])) [])
        ≡ value ++ newline ∷ []
  unfolding load_file
  config_value-load_file short =
      ap (λ ls. config_value (b ∷ key) (load_lines ls [])) (both short)
      ∙ stored ((b ∷ key) ++ b'=' ∷ (value ++ newline ∷ [])) (load_line-pair [])
