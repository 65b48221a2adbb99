-- ===== src/Mulberry/Cluster/Serve.antt =====
-- The calls of a two-phase commit, at the shard servers of a cluster.
use mathlib.Core.Option
use let_mil_go.Common.{
  ℕ, ◌≡◌, refl, sym, ap, subst, ◌∙◌, some-inj, inl, inr, String, false, Option, none, some, arith,
  ◌==◌, ==_iff, string_eq, nat_eq, if◌then◌else◌, Bool-cases, Option-cases,
}
use let_mil_go.GoMap.{get-put}
use let_mil_go.GoMap
use let_mil_go.Rpc.{Status, Try, success, failure}
use let_mil_go.Mvcc.{MvccStore}
use let_mil_go.Buffer.{TxBuffer, TxBufferManager, write_ops, read_records}
use let_mil_go.Buffer
use let_mil_go.OpLog.{OpLog}
use let_mil_go.Shard.State.{
  Shard, PrepareReply, IsolationLevel, Vote, vote_unknown, vote_commit, vote_abort,
}
use let_mil_go.Shard.TwoPhase
use let_mil_go.Shard.Valid.{IsValid}
use let_mil_go.Shard.Valid.Phases.{prepare-IsValid}
use let_mil_go.Shard.Voting.{prepare_lem}
use let_mil_go.Shard.Server.{Fault, status, crash, PrepareResponse, prepare_response}
use let_mil_go.Shard.Server
use let_mil_go.Shard.Survival.{is_crash, prepare_survives}
use let_mil_go.Mulberry.TwoPhase.{vote_of, is_commit}
use let_mil_go.Mulberry.Cluster.{Cluster, unavailable, settle, serve}

response_vote :
    (r : PrepareReply) (resp : PrepareResponse)
    → prepare_response r ≡ success resp
    → r.vote ≡ resp.vote
unfolding prepare_response
response_vote r resp h = elim (Option-cases r.error) [
  | inl fine ↦ ground (arith, fine, h)
  | inr (e, failed) ↦ absurd (cc (rw (failed, prepare_response) at h))
]

module _ {L : Type 0} ⦃log : OpLog L⦄ where
  pub record AllValid (c : Cluster L) : Type 0 where
    pub at : (a : String) (s : Shard L) → GoMap.get c.shards a ≡ some s → IsValid s

  -- what of a shard the transactions' own calls change
  abbrev pub store_at : Cluster L → String → Option MvccStore
  store_at c a = Option.map (λ s. s.store) (GoMap.get c.shards a)

  abbrev pub buffers_at : Cluster L → String → Option TxBufferManager
  buffers_at c a = Option.map (λ s. s.buffer_mgr) (GoMap.get c.shards a)

  -- A handler that does not crash leaves the shard that it returns.
  pub settle-put :
      {A : Type 0} (a : String) (c : Cluster L) (p : Try Fault A × Shard L)
      → is_crash p.0 ≡ false
      → (settle a c p).1 ≡ record c { shards = GoMap.put c.shards a p.1 }
  settle-put a c (success x, s) h = refl
  settle-put a c (failure (status e), s) h = refl
  settle-put a c (failure crash, s) h = absurd (cc h)

  -- a vote for the commit is one of the handler's
  settle_vote :
      (a : String) (c : Cluster L) (p : Try Fault PrepareResponse × Shard L) (time : ℕ)
      → vote_of (settle a c p).0 ≡ some time
      → (resp : PrepareResponse) × (p.0 ≡ success resp) × (resp.vote ≡ vote_commit)
  settle_vote a c (success resp, s) time h = (resp, refl, agreed resp.vote h)
    where
      agreed :
          (v : Vote)
          → (if is_commit v then some resp.prepare_time else none) ≡ some time
          → v ≡ vote_commit
      agreed vote_commit e = refl
      agreed vote_abort e = absurd (cc e)
      agreed vote_unknown e = absurd (cc e)
  settle_vote a c (failure (status e), s) time h = absurd (cc h)
  settle_vote a c (failure crash, s) time h = absurd (cc h)

  pub put-AllValid :
      (a : String) (s : Shard L) (c : Cluster L)
      → AllValid c
      → IsValid s
      → AllValid (record c { shards = GoMap.put c.shards a s })
  put-AllValid a s c all h = record {
    at = λ b u found. elim (Bool-cases (a == b)) [
      | inl same ↦
          subst IsValid (some-inj (sym (get-put c.shards a b s ∙ (rw same refl)) ∙ found)) h
      | inr other ↦ all.at b u (ground (arith, get-put c.shards a b s, other, found))
    ];
  }

  -- what is seen of the shards, where one is replaced by another that looks the same
  pub view-put :
      {V : Type 0} (view : Shard L → V) (a : String) (s s' : Shard L) (c : Cluster L) (b : String)
      → GoMap.get c.shards a ≡ some s
      → view s' ≡ view s
      → Option.map view (GoMap.get (GoMap.put c.shards a s') b)
        ≡ Option.map view (GoMap.get c.shards b)
  view-put view a s s' c b found same = elim (Bool-cases (a == b)) [
    | inl hit ↦ let e = (==_iff a b).0 hit in rw (get-put, hit) (rw (← e) (rw found (ap some same)))
    | inr miss ↦ rw (get-put, miss) refl
  ]

  -- a call of a handler that does not crash, at a server that is there
  pub serve_found :
      {A : Type 0} (handler : Shard L → Try Fault A × Shard L) (a : String) (c : Cluster L)
      (s : Shard L)
      → GoMap.get c.shards a ≡ some s
      → serve handler a c ≡ settle a c (handler s)
  serve_found handler a c s found = rw (found, serve) refl

  pub serve_missing :
      {A : Type 0} (handler : Shard L → Try Fault A × Shard L) (a : String) (c : Cluster L)
      → GoMap.get c.shards a ≡ none
      → serve handler a c ≡ (failure unavailable, c)
  serve_missing handler a c missing = rw (missing, serve) refl

  -- what `Prepare` at one server leaves of the cluster
  abbrev pub Asked : Cluster L → Try Status PrepareResponse × Cluster L → Type 0
  Asked c (reply, c') =
      AllValid c'
      × ((b : String) → store_at c' b ≡ store_at c b)
      × ((time : ℕ) → vote_of reply ≡ some time → (b : String) → buffers_at c' b ≡ buffers_at c b)

  prepare_store :
      (now : ℕ) (s : Shard L) (t : String) (iso : IsolationLevel)
      → IsValid s
      → (TwoPhase.prepare now s t iso).1.store ≡ s.store
  unfolding TwoPhase.prepare
  prepare_store now s t iso h = elim (Option-cases (Buffer.get s.buffer_mgr t)) [
    | inl missing ↦ rw (missing, TwoPhase.prepare) refl
    | inr (b, found) ↦ elim (prepare_lem now s t iso b h found) [
      | inl (_, p) ↦ p.store
      | inr (_, p) ↦ p.store
    ]
  ]

  prepare_buffers :
      (now : ℕ) (s : Shard L) (t : String) (iso : IsolationLevel)
      → IsValid s
      → (TwoPhase.prepare now s t iso).0.vote ≡ vote_commit
      → (TwoPhase.prepare now s t iso).1.buffer_mgr ≡ s.buffer_mgr
  unfolding TwoPhase.prepare
  prepare_buffers now s t iso h voted = elim (Option-cases (Buffer.get s.buffer_mgr t)) [
    | inl missing ↦ rw (missing, TwoPhase.prepare) refl
    | inr (b, found) ↦ elim (prepare_lem now s t iso b h found) [
      | inl (_, p) ↦ p.buffers
      | inr (refused, _) ↦ absurd (cc (refused, voted))
    ]
  ]

  prepare_found :
      (t a : String) (at : ℕ) (iso : IsolationLevel) (c : Cluster L) (s : Shard L)
      → AllValid c
      → GoMap.get c.shards a ≡ some s
      → Asked c (settle a c (Server.prepare c.now s t at iso))
  prepare_found t a at iso c s all found =
      let h = all.at a s found in
      let p = Server.prepare c.now s t at iso in
      let stored = settle-put a c p (prepare_survives c.now s t at iso h) in
      (
        rw stored
            (put-AllValid a p.1 c all (unfold Server.prepare in prepare-IsValid c.now s t iso h)),
        λ b. rw stored (
            view-put (λ u. u.store) a s p.1 c b found
              (unfold Server.prepare in prepare_store c.now s t iso h)),
        λ time voted b.
            let (resp, replied, agreed) = settle_vote a c p time voted in
            rw stored (
              view-put (λ u. u.buffer_mgr) a s p.1 c b found
                (unfold Server.prepare in
                  prepare_buffers c.now s t iso h
                    (response_vote (TwoPhase.prepare c.now s t iso).0 resp replied ∙ agreed))),
      )

  pub prepare-Asked :
      (t a : String) (at : ℕ) (iso : IsolationLevel) (c : Cluster L)
      → AllValid c
      → Asked c (serve (λ s. Server.prepare c.now s t at iso) a c)
  prepare-Asked t a at iso c all = elim (Option-cases (GoMap.get c.shards a)) [
    | inl missing ↦
        rw (serve_missing (λ s. Server.prepare c.now s t at iso) a c missing)
          (all, λ b. refl, λ time voted b. refl)
    | inr (s, found) ↦
        rw (serve_found (λ s. Server.prepare c.now s t at iso) a c s found)
          (prepare_found t a at iso c s all found)
  ]
