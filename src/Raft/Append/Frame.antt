-- ===== src/Raft/Append/Frame.antt =====
-- What _L_appendEntries leaves alone.
use raft_kvstorage.Common.{◌≡◌, refl, List, [], ◌∷◌, arith}
use raft_kvstorage.Raft.Message.{LogEntry, AppendEntriesArgs, AppendEntriesReply}
use raft_kvstorage.Raft.Node.{Node}
use raft_kvstorage.Raft.Append.{
  Loop, finished, failed, out_of_range, put_entry, append_entry, append_loop, advance_commit,
  accept_entries, refuse_mismatch, receive_entries,
}

-- The two nodes differ in their logs at most.
abbrev pub SameButLog : Node → Node → Type 0
SameButLog s t = t ≡ record s { logs = t.logs }

-- A node that a loop leaves behind.
abbrev pub OnLoop : (Node → Type 0) → Loop → Type 0
OnLoop P (finished t) = P t
OnLoop P (failed t) = P t
OnLoop P out_of_range = Unit

append_entry-same : (e : LogEntry) (s : Node) → OnLoop (SameButLog s) (append_entry e s)
unfolding append_entry put_entry
append_entry-same e s = ground arith

-- A loop keeps what each of its rounds keeps.
pub append_loop-OnLoop :
    (P : Node → Type 0) (Q : Node → Type 0) (e : LogEntry) (es : List LogEntry) (s : Node)
    → OnLoop P (append_entry e s)
    → ((t : Node) → P t → OnLoop Q (append_loop es t))
    → ((t : Node) → P t → Q t)
    → OnLoop Q (append_loop (e ∷ es) s)
unfolding append_loop
append_loop-OnLoop P Q e es s first rest stop = go (append_entry e s) first
  where
    go :
        (r : Loop)
        → OnLoop P r
        → OnLoop Q (elim r [
          | finished t ↦ append_loop es t
          | failed t ↦ failed t
          | out_of_range ↦ out_of_range
        ])
    go (finished t) p = rest t p
    go (failed t) p = stop t p
    go out_of_range p = tt

append_loop-same :
    (es : List LogEntry) (s t : Node) → SameButLog s t → OnLoop (SameButLog s) (append_loop es t)
unfolding append_loop
append_loop-same [] s t h = h
append_loop-same (e ∷ es) s t h =
    append_loop-OnLoop (SameButLog s) (SameButLog s) e es t first (λ u. append_loop-same es s u)
      (λ u p. p)
  where
    first : OnLoop (SameButLog s) (append_entry e t)
    first = ground (arith, append_entry-same e t)

-- The two nodes differ in their logs and commit indices at most.
abbrev pub SameCore : Node → Node → Type 0
SameCore s t = t ≡ record s { logs = t.logs; commit_index = t.commit_index }

accept_entries-same :
    (args : AppendEntriesArgs) (reply : AppendEntriesReply) (s : Node)
    → SameCore s (accept_entries args reply s).0
unfolding accept_entries advance_commit
accept_entries-same args reply s = ground (arith, append_loop-same args.entries s s refl)

pub receive_entries-same :
    (args : AppendEntriesArgs) (reply : AppendEntriesReply) (s : Node)
    → SameCore s (receive_entries args reply s).0
unfolding receive_entries refuse_mismatch
receive_entries-same args reply s = ground (arith, accept_entries-same args reply s)
