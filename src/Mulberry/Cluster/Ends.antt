-- ===== src/Mulberry/Cluster/Ends.antt =====
-- `Abort` and `Commit` at the shard servers of a cluster.
use let_mil_go.Common.{
  ℕ, ◌≡◌, refl, sym, ◌∙◌, some-inj, inl, inr, String, false, some, ◌==◌, ==-refl, string_eq,
  Option-cases,
}
use let_mil_go.GoMap.{get-put}
use let_mil_go.GoMap
use let_mil_go.Mvcc.{versions_of}
use let_mil_go.Buffer.{TxBuffer, get_write}
use let_mil_go.Buffer
use let_mil_go.OpLog.{OpLog}
use let_mil_go.Shard.State.{Shard}
use let_mil_go.Shard.Apply.{with_write}
use let_mil_go.Shard.TwoPhase
use let_mil_go.Shard.Valid.Phases.{commit-IsValid, abort_cleanup-IsValid}
use let_mil_go.Shard.Voting.{abort_cleanup-Cleaned}
use let_mil_go.Shard.Committed.{commit_lem}
use let_mil_go.Shard.Server
use let_mil_go.Shard.Survival.{commit_survives}
use let_mil_go.Mulberry.Cluster.{Cluster, serve}
use let_mil_go.Mulberry.Cluster.Serve.{
  AllValid, store_at, settle-put, put-AllValid, view-put, serve_found, serve_missing,
}

module _ {L : Type 0} ⦃log : OpLog L⦄ where
  -- An abort at one server keeps every store.
  pub abort_keeps :
      (t a : String) (c : Cluster L)
      → AllValid c
      → AllValid (serve (λ s. Server.abort c.now s t) a c).1
        × ((b : String) → store_at (serve (λ s. Server.abort c.now s t) a c).1 b ≡ store_at c b)
  unfolding Server.abort TwoPhase.abort
  abort_keeps t a c all = elim (Option-cases (GoMap.get c.shards a)) [
    | inl missing ↦ rw (serve_missing (λ s. Server.abort c.now s t) a c missing) (all, λ b. refl)
    | inr (s, found) ↦
        let s' = TwoPhase.abort_cleanup c.now s t in
        rw (serve_found (λ s. Server.abort c.now s t) a c s found) (
          put-AllValid a s' c all (abort_cleanup-IsValid c.now s t (all.at a s found)),
          λ b. view-put (λ u. u.store) a s s' c b found (abort_cleanup-Cleaned c.now s t).store,
        )
  ]

  -- the writes of a transaction at one server, which are its versions of the commit time now
  abbrev pub Applied : Cluster L → Cluster L → String → ℕ → String → Type 0
  Applied c c' t commit_time a =
      (s : Shard L) (b : TxBuffer)
      → GoMap.get c.shards a ≡ some s
      → Buffer.get s.buffer_mgr t ≡ some b
      → (s' : Shard L) × (GoMap.get c'.shards a ≡ some s')
        × ((key : String)
            → versions_of s'.store key
              ≡ with_write commit_time t (get_write b key) (versions_of s.store key))

  abbrev pub CommittedAt : Cluster L → Cluster L → String → ℕ → String → Type 0
  CommittedAt c c' t commit_time a =
      AllValid c'
      × ((b : String) → (a == b) ≡ false → GoMap.get c'.shards b ≡ GoMap.get c.shards b)
      × Applied c c' t commit_time a

  commit_found :
      (t a : String) (commit_time : ℕ) (c : Cluster L) (s : Shard L)
      → AllValid c
      → GoMap.get c.shards a ≡ some s
      → CommittedAt c
          (record c { shards = GoMap.put c.shards a (TwoPhase.commit c.now s t commit_time).1 })
          t
          commit_time
          a
  commit_found t a commit_time c s all found =
      let s' = (TwoPhase.commit c.now s t commit_time).1 in
      let h = all.at a s found in
      (
        put-AllValid a s' c all (commit-IsValid c.now s t commit_time h),
        λ b other. rw (get-put, other) refl,
        λ u b found' has.
            let same = some-inj (sym found ∙ found') in
            (
              s',
              rw (get-put, ==-refl a) refl,
              λ key. rw (← same) ((commit_lem c.now s t commit_time b h (rw same has)).1 key),
            ),
      )

  -- A commit at one server applies the transaction's writes there, and leaves the other servers.
  pub commit_applies :
      (t a : String) (commit_time : ℕ) (c : Cluster L)
      → AllValid c
      → CommittedAt c (serve (λ s. Server.commit c.now s t commit_time) a c).1 t commit_time a
  commit_applies t a commit_time c all = elim (Option-cases (GoMap.get c.shards a)) [
    | inl missing ↦
        rw (serve_missing (λ s. Server.commit c.now s t commit_time) a c missing)
          (all, λ b other. refl, λ s b found has. absurd (cc (missing, found)))
    | inr (s, found) ↦
        rw
          (
            serve_found (λ s. Server.commit c.now s t commit_time) a c s found,
            settle-put a c (Server.commit c.now s t commit_time)
                (commit_survives c.now s t commit_time (all.at a s found)),
          )
          (unfold Server.commit in commit_found t a commit_time c s all found)
  ]
