-- ===== src/Pool/Moves.antt =====
-- What stays of the servers of a cluster when services move to other hosts.
use curveadm.Prelude.{
  suc, ◌≡◌, refl, inl, inr, Bool, not, ◌&&◌, Bool-cases, List, [], ◌∷◌, All, Option, none, some,
  Option-cases, Dict, lookup, Values, Values-insert, Values-lookup, pos, is_zero, ok, if◌then◌else◌,
}
use curveadm.Topology.DeployConfig.{DeployConfig}
use curveadm.Topology.Layout.{
  get_listen_ip, get_listen_port, get_listen_external_ip, get_listen_external_port,
}
use curveadm.Topology.Convert.Ports.{IsReady}
use curveadm.Pool.{
  Server, CurveClusterTopo, MigrateServer, targets, migrate_server, migrate_servers,
  migrate_cluster_server, format_name,
}

-- With a port that is 0 the ports stay.
abbrev pub has_ports : Server → Bool
has_ports s = not (is_zero s.internal_port) && not (is_zero s.external_port)

-- The server takes the name and the address of the service that it moves to.
pub record IsAt (dc : DeployConfig) (s s' : Server) : Type 0 where
  pub name : s'.name ≡ format_name dc
  pub internal_ip : get_listen_ip dc ≡ ok s'.internal_ip
  pub external_ip : get_listen_external_ip dc ≡ ok s'.external_ip
  pub internal_port :
      (if has_ports s then get_listen_port dc else ok s.internal_port) ≡ ok s'.internal_port
  pub external_port :
      (if has_ports s then get_listen_external_port dc else ok s.external_port)
      ≡ ok s'.external_port

abbrev pub At : Option DeployConfig → Server → Server → Type 0
At none s s' = s' ≡ s
At (some dc) s s' = IsAt dc s s'

-- No server leaves its zone or its pool.
pub record IsMoved (m : Dict DeployConfig) (s s' : Server) : Type 0 where
  pub place : At (lookup s.name m) s s'
  pub zone : s'.zone ≡ s.zone
  pub physical_pool : s'.physical_pool ≡ s.physical_pool
  pub pool : s'.pool ≡ s.pool

abbrev pub AreMoved : Dict DeployConfig → List Server → List Server → Type 0
AreMoved m [] [] = Unit
AreMoved m [] (s' ∷ ss') = ⊥
AreMoved m (s ∷ ss) [] = ⊥
AreMoved m (s ∷ ss) (s' ∷ ss') = IsMoved m s s' × AreMoved m ss ss'

targets-IsReady :
    (ts : List MigrateServer) (m : Dict DeployConfig)
    → All (λ t. IsReady t.to) ts
    → Values IsReady m
    → Values IsReady (targets ts m)
unfolding targets
targets-IsReady [] m h v = v
targets-IsReady (t ∷ ts) m (r, h) v =
    targets-IsReady ts _ h (Values-insert IsReady (format_name t.from) t.to m r v)

migrate_server-moves :
    (m : Dict DeployConfig) (s : Server)
    → Values IsReady m
    → (s' : Server) × (migrate_server (lookup s.name m) s ≡ ok s') × IsMoved m s s'
unfolding migrate_server
migrate_server-moves m s v = elim (Option-cases (lookup s.name m)) [
  | inl e ↦ (
    s,
    rw (e) refl,
    record { place = rw (e) refl; zone = refl; physical_pool = refl; pool = refl },
  )
  | inr (dc, e) ↦
      let r = Values-lookup IsReady s.name m v e in
      let (ip, e1) = r.listen_ip in
      let (eip, e2) = r.external_ip in
      let (p, e3) = r.listen_port in
      let (ep, e4) = r.external_port in
      let moved : Server = record s {
        internal_ip = ip;
        external_ip = eip;
        name = format_name dc;
      } in
      elim (Bool-cases (has_ports s)) [
        | inl b ↦ (
          record moved { internal_port = pos (suc p); external_port = pos (suc ep) },
          rw (e, e1, e2, b, e3, e4) refl,
          record {
            place = rw (e) (record {
              name = refl;
              internal_ip = e1;
              external_ip = e2;
              internal_port = rw (b) e3;
              external_port = rw (b) e4;
            });
            zone = refl;
            physical_pool = refl;
            pool = refl;
          },
        )
        | inr b ↦ (
          moved,
          rw (e, e1, e2, b) refl,
          record {
            place = rw (e) (record {
              name = refl;
              internal_ip = e1;
              external_ip = e2;
              internal_port = rw (b) refl;
              external_port = rw (b) refl;
            });
            zone = refl;
            physical_pool = refl;
            pool = refl;
          },
        )
      ]
]

migrate_servers-moves :
    (m : Dict DeployConfig) (ss : List Server)
    → Values IsReady m
    → (ss' : List Server) × (migrate_servers m ss ≡ ok ss') × AreMoved m ss ss'
unfolding migrate_servers
migrate_servers-moves m [] v = ([], refl, tt)
migrate_servers-moves m (s ∷ ss) v =
    let (s', e, i) = migrate_server-moves m s v in
    let (ss', f, is) = migrate_servers-moves m ss v in (s' ∷ ss', rw (e, f) refl, (i, is))

-- When the getters of every target of a migration return, the migration of the servers returns
-- and changes only the servers, of which it keeps the number and the order. No server changes its
-- zone or its pool. A server whose name is that of a migrated service takes the name and the
-- addresses of the last target given for it, and its ports if neither of its own is 0; any other
-- server stays as it is.
pub migrate_cluster_server-moves :
    (old : CurveClusterTopo) (ts : List MigrateServer)
    → All (λ t. IsReady t.to) ts
    → (ss' : List Server) × (migrate_cluster_server old ts ≡ ok (record old { servers = ss' }))
      × AreMoved (targets ts []) old.servers ss'
unfolding migrate_cluster_server
migrate_cluster_server-moves old ts h =
    let (ss', e, is) =
      migrate_servers-moves (targets ts []) old.servers (targets-IsReady ts [] h tt) in
    (ss', rw (e) refl, is)
