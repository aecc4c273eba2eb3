-- ===== src/Raft/Apply/Restart.antt =====
-- What a node knows when its process starts again.
use raft_kvstorage.Common.{ℕ, ◌≡◌, []}
use raft_kvstorage.Persister.{Disk, init_persister}
use raft_kvstorage.Persister.Restore.{load_state-init_persister}
use raft_kvstorage.Raft.Node.{Codec, done, load}
use raft_kvstorage.Raft.Apply.{blank, construct, resume}

module _ ⦃c : Codec⦄ where
  -- A process starts with a new persister, which empties the state file, so that the node begins
  -- with term 0, no vote and no log, whatever was on the disk.
  pub construct-init_persister :
      (me helpers now : ℕ) (d : Disk)
      → construct me helpers now (init_persister d) ≡ done (blank me helpers now (init_persister d))
  unfolding construct load resume blank
  construct-init_persister me helpers now d = rw (load_state-init_persister d [], construct)
