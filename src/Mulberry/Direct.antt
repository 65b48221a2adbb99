-- ===== src/Mulberry/Direct.antt =====
-- The router of internal/mulberry before a cluster, where a connection is the address that it goes to.
use let_mil_go.Common.{
  ◌≡◌, refl, ap, ◌∙◌, inl, inr, String, none, some, List, [], ◌∷◌, arith, ==_iff, string_eq,
  Option-cases,
}
use let_mil_go.GoMap.{get-put}
use let_mil_go.GoMap
use let_mil_go.Rpc.{Status, Try, success}
use let_mil_go.OpLog.{OpLog}
use let_mil_go.Mulberry.Connections.{Stub, connect, get_or_connect, get_stub}
use let_mil_go.Mulberry.State.{TxContext, RouterError, prepare_stub, Sys}
use let_mil_go.Mulberry.Router.{stub_of, shard_info, remove_tx_context}
use let_mil_go.Mulberry.TwoPhase
use let_mil_go.Mulberry.TwoPhase.{vote_of}
use let_mil_go.Mulberry.Cluster.{Cluster, cluster_network}
use let_mil_go.Mulberry.Cluster.Serve.{AllValid, store_at}
use let_mil_go.Mulberry.Cluster.Ends.{abort_keeps}

module _ {L : Type 0} ⦃log : OpLog L⦄ where
  -- every shard is valid, and every pooled stub goes to its address
  pub record IsDirect (s : Sys (Cluster L) String) : Type 0 where
    pub shards : AllValid s.world
    pub stubs :
        (address : String) (stub : Stub String)
        → GoMap.get s.router.conn_mgr.stubs address ≡ some stub
        → stub.conn ≡ address

  abbrev pub Dialled :
      Sys (Cluster L) String
      → String
      → Try RouterError (Stub String) × Sys (Cluster L) String
      → Type 0
  Dialled s address (r, s') =
      (r ≡ success (record { conn = address }))
      × (s'.world ≡ s.world)
      × (s'.router.topology ≡ s.router.topology)
      × IsDirect s'

  get_stub_dials :
      (address : String) (s : Sys (Cluster L) String)
      → GoMap.get s.router.conn_mgr.stubs address ≡ none
      → get_stub ⦃net = cluster_network⦄ s.router.conn_mgr s.world address
        ≡ connect s.router.conn_mgr address (success address, s.world)
  unfolding get_stub get_or_connect
  get_stub_dials address s missing = rw (missing, get_stub) (rw (get_or_connect, missing) refl)

  pub stub_of-Dialled :
      (on_error : Status → RouterError) (address : String) (s : Sys (Cluster L) String)
      → IsDirect s
      → Dialled s address (stub_of ⦃net = cluster_network⦄ on_error address s)
  unfolding stub_of
  stub_of-Dialled on_error address s h =
      elim (Option-cases (GoMap.get s.router.conn_mgr.stubs address)) [
        | inr (stub, found) ↦
            unfold get_stub in
            rw (found, get_stub)
              (
                ap (λ c. success (record { conn = c })) (h.stubs address stub found),
                refl,
                refl,
                record { shards = h.shards; stubs = h.stubs },
              )
        | inl missing ↦ rw (get_stub_dials address s missing) (
            unfold connect in
            (
              refl,
              refl,
              refl,
              record {
                shards = h.shards;
                stubs = λ a st found. ground (
                  arith,
                  get-put s.router.conn_mgr.stubs address a (record { conn = address }),
                  found,
                  h.stubs a st,
                  ==_iff address a,
                );
              },
            ))
      ]

  -- an abort at one shard of the transaction
  abbrev KeepsStores : Sys (Cluster L) String → Sys (Cluster L) String → Type 0
  KeepsStores s s' = IsDirect s' × ((a : String) → store_at s'.world a ≡ store_at s.world a)

  abort_shard-KeepsStores :
      (t id : String) (s : Sys (Cluster L) String)
      → IsDirect s
      → KeepsStores s (TwoPhase.abort_shard ⦃net = cluster_network⦄ t id s)
  unfolding TwoPhase.abort_shard TwoPhase.send_abort
  abort_shard-KeepsStores t id s h = elim (Option-cases (shard_info s id)) [
    | inl gone ↦ rw (gone, TwoPhase.abort_shard) (h, λ a. refl)
    | inr (info, known) ↦
        let (e, same, _, d) = stub_of-Dialled prepare_stub info.address s h in
        let s1 = (stub_of ⦃net = cluster_network⦄ prepare_stub info.address s).1 in
        let (valid, stores) = abort_keeps t info.address s1.world d.shards in
        rw (known, TwoPhase.abort_shard)
          (rw (e, TwoPhase.send_abort)
            (
              record { shards = valid; stubs = d.stubs },
              λ a. stores a ∙ ap (λ c. store_at c a) same,
            ))
  ]

  abort_shards-KeepsStores :
      (t : String) (ids : List String) (s : Sys (Cluster L) String)
      → IsDirect s
      → KeepsStores s (TwoPhase.abort_shards ⦃net = cluster_network⦄ t ids s)
  unfolding TwoPhase.abort_shards
  abort_shards-KeepsStores t [] s h = (h, λ a. refl)
  abort_shards-KeepsStores t (id ∷ ids) s h =
      let (d, first) = abort_shard-KeepsStores t id s h in
      let s1 = TwoPhase.abort_shard ⦃net = cluster_network⦄ t id s in
      let (d', rest) = abort_shards-KeepsStores t ids s1 d in (d', λ a. rest a ∙ first a)

  pub give_up-KeepsStores :
      (A : Type 0) (t : String) (ctx : TxContext) (e : RouterError) (s : Sys (Cluster L) String)
      → IsDirect s
      → KeepsStores s (TwoPhase.give_up ⦃net = cluster_network⦄ {A = A} t ctx e s).1
  unfolding TwoPhase.give_up TwoPhase.abort_all remove_tx_context
  give_up-KeepsStores A t ctx e s h =
      let (d, stores) = abort_shards-KeepsStores t (GoMap.keys ctx.involved_shards) s h in
      (record { shards = d.shards; stubs = d.stubs }, stores)
