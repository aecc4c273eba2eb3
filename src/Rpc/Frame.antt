-- ===== src/Rpc/Frame.antt =====
-- What the server makes of the requests that a channel sends.
use raft_kvstorage.Common.{
  ℕ, ◌<◌, ◌^◌, ◌%◌, ◌≡◌, ◌≢◌, refl, sym, ap, ◌∙◌, subst, Bool, List, [], ◌∷◌, ◌++◌, none, some,
  Bytes, length, length-append, drop, arith,
}
use mathlib.Core.List.{append_assoc}
use raft_kvstorage.Raft.Node.{done}
use raft_kvstorage.Rpc.{RpcHeader, Wire, IsWire, frame}
use raft_kvstorage.Rpc.Provider.{take, Service, bad_args, read_string, call, read_args, on_message}

pub take-append : (xs ys : Bytes) → take (length xs) (xs ++ ys) ≡ xs
take-append [] ys = refl
take-append (x ∷ xs) ys = ap (λ zs. x ∷ zs) (take-append xs ys)

pub drop-append : (xs ys : Bytes) → drop (length xs) (xs ++ ys) ≡ ys
drop-append [] ys = refl
drop-append (x ∷ xs) ys = drop-append xs ys

read_string-append : (xs ys : Bytes) → read_string (length xs) (xs ++ ys) ≡ some (xs, ys)
unfolding read_string
read_string-append xs ys =
    ground (arith, length-append {0} xs ys, take-append xs ys, drop-append xs ys)

read_string-short : (n : ℕ) (xs : Bytes) → length xs < n → read_string n xs ≡ none
unfolding read_string
read_string-short n xs lt = ground arith

module _ (services : List (Bytes × Service)) (parses : ℕ → Bytes → Bool) ⦃w : Wire⦄ (i : IsWire)
    (h : RpcHeader) (header : Bytes) (written : w.serialize h ≡ some header)
    (short : length header < 2 ^ 32) where
  -- What is read of a message that begins with a size and a header.
  on_message-header :
      (rest : Bytes)
      → on_message services parses (frame header rest)
        ≡ done (read_args services parses (some h) rest)
  unfolding on_message frame
  on_message-header rest =
      let size : length header % 2 ^ 32 ≡ length header = omega (arith, short) in
      let first = i.read-varint (length header) (header ++ rest) short in
      let parsed = i.parse-serialize h header written in
      ground (arith, size, first, read_string-append header rest, parsed)

  read_args-whole :
      (args rest : Bytes)
      → h.args_size ≡ length args
      → read_args services parses (some h) (args ++ rest) ≡ call services parses h args
  unfolding read_args
  read_args-whole args rest e = ground (
    arith,
    subst (λ n. read_string n (args ++ rest) ≡ some (args, rest)) (sym e)
        (read_string-append args rest),
  )

  -- A request that comes alone, or with others behind it in the same buffer, calls what its header
  -- names; the others are thrown away.
  pub on_message-frame :
      (args others : Bytes)
      → h.args_size ≡ length args
      → on_message services parses (frame header args ++ others)
        ≡ done (call services parses h args)
  unfolding frame
  on_message-frame args others e =
      ap (on_message services parses) (joined args others)
      ∙ on_message-header (args ++ others)
      ∙ ap done (read_args-whole args others e)
    where
      joined : (args others : Bytes) → frame header args ++ others ≡ frame header (args ++ others)
      joined args others = simp append_assoc

  -- A request of which the header and a part of the arguments, not all of them, are there is answered
  -- with `bad_args`, and thrown away.
  pub on_message-cut :
      (front back : Bytes)
      → h.args_size ≡ length (front ++ back)
      → back ≢ []
      → on_message services parses (frame header front) ≡ done bad_args
  unfolding read_args
  on_message-cut front back e ne =
      on_message-header front
      ∙ ap done (ground (arith, read_string-short h.args_size front (longer front back e ne)))
    where
      longer :
          (front back : Bytes)
          → h.args_size ≡ length (front ++ back)
          → back ≢ []
          → length front < h.args_size
      longer front [] e ne = absurd (ne refl)
      longer front (b ∷ back) e ne = omega (arith, e, length-append {0} front (b ∷ back))
