-- ===== src/KvServer/Agreement.antt =====
-- Two servers that come to the same commands, one of them by way of the other's snapshot.
use raft_kvstorage.Common.{
  ℕ, ◌≡◌, ◌≢◌, refl, ap, subst, sym, ◌∙◌, List, [], ◌∷◌, Option, none, some, Bytes,
}
use mathlib.Core.Path.{fun_ext}
use raft_kvstorage.Raft.Node.{Codec, Outcome, done}
use raft_kvstorage.Raft.Log.{IsWf}
use raft_kvstorage.Raft.Message.{InstallSnapshotArgs}
use raft_kvstorage.Raft.Apply.{ApplyMessage, snapshot_message}
use raft_kvstorage.Operation.{Op, OpArchive}
use raft_kvstorage.Table.{Table, IsTable, lookup, or_else}
use raft_kvstorage.KvServer.{
  KvServer, ServerArchive, insert_all, dump_server, install, pop_message, pop_message_loop,
}
use raft_kvstorage.KvServer.Replica.{view, obey_all}
use raft_kvstorage.KvServer.Delivery.{Commands, all_taken, first_message}
use raft_kvstorage.KvServer.Transfer.{Restores, find-insert_all, load_server_lem}

same_server {ℓ} : {A : Type ℓ} (x y : A) → ◌≡◌ {A = Outcome A} (done x) (done y) → x ≡ y
same_server x y e = cc

module _ {T : Type 0} ⦃t : Table T⦄ (laws : IsTable T) ⦃c : Codec⦄ ⦃sa : ServerArchive⦄
    ⦃a : OpArchive⦄ where
  -- A server with an empty table that takes over a state is then in that state.
  installed :
      (args : InstallSnapshotArgs) (kvs : List (Bytes × Bytes)) (reqs : List (Bytes × ℕ))
      (s : KvServer T)
      → ((k : Bytes) → t.find k s.data_table ≡ none)
      → args.content ≢ []
      → sa.decode args.content ≡ some (kvs, reqs)
      → (v : KvServer T) × (pop_message (snapshot_message args) s ≡ done v)
        × (v.raft_node ≡ s.raft_node)
        × (v.last_snapshot_command_index ≡ args.last_index)
        × (view v ≡ record { values = λ k. lookup k kvs; requests = λ k. lookup k reqs })
  unfolding pop_message install snapshot_message
  installed args kvs reqs s empty full e = (
    record s {
      data_table = insert_all t.insert kvs s.data_table;
      last_request_id = reqs;
      last_snapshot_command_index = args.last_index;
    },
    rw (load_server_lem laws args.content kvs reqs s full e) refl,
    refl,
    refl,
    ap (λ (f : Bytes → Option Bytes). record { values = f; requests = λ k. lookup k reqs })
        (fun_ext (λ k.
          find-insert_all laws k kvs s.data_table ∙ ap (λ o. or_else o (lookup k kvs)) (empty k))),
  )

-- Replicas agree: a server takes `ops` and then `more`; another one, with its own kind of table, which
-- is empty, takes over the first one's snapshot from between the two and then takes `more`. Both come
-- through, and their keys, values and records by client are what all the commands make of those with
-- which the first one began, whatever snapshots each of them takes of itself on the way. The archive
-- restores what it dumped, the logs of both nodes are well formed, and the messages are behind the
-- last snapshot of the server that takes them.
pub replicas_agree :
    {T T' : Type 0} ⦃t : Table T⦄ ⦃t' : Table T'⦄ ⦃c : Codec⦄ ⦃sa : ServerArchive⦄ ⦃a : OpArchive⦄
    (laws : IsTable T) (laws' : IsTable T') (before after after' : List ApplyMessage)
    (ops more : List Op) (s m : KvServer T) (s' : KvServer T') (args : InstallSnapshotArgs)
    → IsWf s.raft_node
    → IsWf s'.raft_node
    → Commands s.last_snapshot_command_index before ops
    → Commands s.last_snapshot_command_index after more
    → Commands args.last_index after' more
    → pop_message_loop before s ≡ done m
    → Restores laws m
    → args.content ≡ dump_server m
    → ((k : Bytes) → t'.find k s'.data_table ≡ none)
    → (u : KvServer T) × (u' : KvServer T') × (pop_message_loop after m ≡ done u)
      × (pop_message_loop (snapshot_message args ∷ after') s' ≡ done u')
      × (view u ≡ obey_all more (obey_all ops (view s)))
      × (view u' ≡ view u)
replicas_agree ⦃t = t⦄ ⦃sa = sa⦄ laws laws' before after after' ops more s m s' args wf wf' h next
      next' took restores content empty =
    let (m', d, wm, i, w) = all_taken laws before ops s wf h in
    let same = same_server m' m (sym d ∙ took) in
    let at = ap (λ x. x.last_snapshot_command_index) (sym same) ∙ i in
    let (u, go, _, _, made) =
      all_taken laws after more m (subst (λ x. IsWf x.raft_node) same wm)
        (subst (λ n. Commands n after more) (sym at) next) in
    let (v, taken, node, low, state) =
      installed laws' args (t.contents m.data_table) m.last_request_id s' empty
        (λ e. restores.0 (sym content ∙ e)) (ap sa.decode content ∙ restores.1) in
    let (u', go', _, _, made') =
      all_taken laws' after' more v (subst IsWf (sym node) wf')
        (subst (λ n. Commands n after' more) (sym low) next') in
    let copied : view v ≡ view m =
      state
      ∙ ap
          (λ (f : Bytes → Option Bytes). record {
            values = f;
            requests = λ k. lookup k m.last_request_id;
          })
          (fun_ext (λ k. sym (laws.find-contents k m.data_table))) in
    let whole = made ∙ ap (obey_all more) (ap view (sym same) ∙ w) in
    (
      u,
      u',
      go,
      first_message laws' (snapshot_message args) after' s' v taken ∙ go',
      whole,
      made' ∙ ap (obey_all more) copied ∙ sym made,
    )
