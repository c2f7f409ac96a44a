-- ===== src/Topology/Parse/Replicas.antt =====
-- The services that one entry of a topology's `deploy` list stands for.
use curveadm.Prelude.{
  ℕ, zero, suc, ◌<◌, String, ◌≡◌, refl, sym, ap, ◌∙◌, subst, arith, List, [], ◌∷◌, length, Option,
  Dict, ℤ, pos, negsuc, ok, bind-eq-ok, WhenOk, lookup, erase,
}
use curveadm.Errno.{Fallible}
use curveadm.Config.Value.{Value, deep_copy}
use curveadm.Topology.DeployConfig.{DeployConfig, Context, format_id, format_name}
use curveadm.Topology.Convert.{new_deploy_config, variable_section, user_variables, to_texts}
use curveadm.Variables.{new_variables}
use curveadm.Topology.Merge.{merge}
use curveadm.Topology.Parse.{Deploy, replicas_of, replicate_configs, deploy_configs}

-- The replica number `seq` of `n` on a host.
pub record IsReplica (role host name : String) (n host_sequence seq : ℕ) (dc : DeployConfig)
    : Type 0 where
  pub role_same : dc.role ≡ role
  pub host_same : dc.host ≡ host
  pub count : dc.replicas ≡ n
  pub place : dc.host_sequence ≡ host_sequence
  pub number : dc.replicas_sequence ≡ seq
  pub own_id : dc.id ≡ format_id role host name seq
  pub first_id : dc.parent_id ≡ format_id role host name 0

-- The replicas from the number `seq` on, in order.
abbrev pub AreReplicas : String → String → String → ℕ → ℕ → ℕ → List DeployConfig → Type 0
AreReplicas role host name n host_sequence seq [] = Unit
AreReplicas role host name n host_sequence seq (dc ∷ dcs) =
    IsReplica role host name n host_sequence seq dc
    × AreReplicas role host name n host_sequence (suc seq) dcs

new_deploy_config-IsReplica :
    (ctx : Option Context) (kind role host name : String) (n host_sequence seq : ℕ)
    (config : Dict Value) {dc : DeployConfig}
    → new_deploy_config ctx kind role host name n host_sequence seq config ≡ ok dc
    → IsReplica role host (format_name name host_sequence) n host_sequence seq dc
unfolding new_deploy_config
new_deploy_config-IsReplica ctx kind role host name n host_sequence seq config {dc} h =
    let (m, _, h1) = bind-eq-ok (variable_section (lookup "variable" config)) _ h in
    let (_, _, h2) = bind-eq-ok (user_variables m new_variables) _ h1 in
    let (_, _, h3) = bind-eq-ok (to_texts (erase "variable" config)) _ h2 in
    subst (WhenOk (IsReplica role host (format_name name host_sequence) n host_sequence seq)) h3
      (record {
        role_same = refl;
        host_same = refl;
        count = refl;
        place = refl;
        number = refl;
        own_id = refl;
        first_id = refl;
      })

replicas_of-positive : (n old : ℤ) {r : ℕ} → replicas_of n old ≡ ok r → 0 < r
unfolding replicas_of
replicas_of-positive (negsuc n) old h = cc
replicas_of-positive (pos n) (negsuc m) h = cc
replicas_of-positive (pos (suc n)) (pos m) h = subst (WhenOk (λ r. 0 < r)) h (omega arith)
replicas_of-positive (pos zero) (pos (suc m)) h = subst (WhenOk (λ r. 0 < r)) h (omega arith)
replicas_of-positive (pos zero) (pos zero) h = subst (WhenOk (λ r. 0 < r)) h (omega arith)

module _ (role host name : String) (n host_sequence : ℕ) (new : ℕ → Fallible DeployConfig) where
  replicate_configs-AreReplicas :
      ((seq : ℕ) (dc : DeployConfig)
        → new seq ≡ ok dc
        → IsReplica role host name n host_sequence seq dc)
      → (left seq : ℕ) {dcs : List DeployConfig} → replicate_configs left seq new ≡ ok dcs
      → (length dcs ≡ left) × AreReplicas role host name n host_sequence seq dcs
  unfolding replicate_configs
  replicate_configs-AreReplicas each zero seq h =
      subst (WhenOk (λ dcs. (length dcs ≡ 0) × AreReplicas role host name n host_sequence seq dcs))
        h (refl, tt)
  replicate_configs-AreReplicas each (suc left) seq h =
      let (dc, e, h1) = bind-eq-ok (new seq) _ h in
      let (dcs, f, h2) = bind-eq-ok (replicate_configs left (suc seq) new) _ h1 in
      let (len, are) = replicate_configs-AreReplicas each left (suc seq) f in
      subst
        (WhenOk
          (λ dcs. (length dcs ≡ suc left) × AreReplicas role host name n host_sequence seq dcs))
        h2 (ap suc len, (each seq dc e, are))

-- When the services of a `deploy` entry of a topology are made, they are as many as the entry has
-- replicas, one at least. They are numbered from 0 on; each has the role, the host, the place of
-- the entry and the number of replicas, the id of its own number, and as parent the id of the
-- number 0.
pub deploy_configs-AreReplicas :
    (ctx : Option Context) (kind role : String) (services_config : Dict Value) (host_sequence : ℕ)
    (d : Deploy) {dcs : List DeployConfig}
    → deploy_configs ctx kind role services_config host_sequence d ≡ ok dcs
    → (0 < length dcs)
      × (replicas_of d.replicas d.replica ≡ ok (length dcs))
      × AreReplicas role d.host (format_name d.name host_sequence) (length dcs) host_sequence 0 dcs
unfolding deploy_configs
deploy_configs-AreReplicas ctx kind role services_config host_sequence d {dcs} h =
    let (config, _, h1) = bind-eq-ok (merge services_config d.config) _ h in
    let (n, e, h2) = bind-eq-ok (replicas_of d.replicas d.replica) _ h1 in
    let (len, are) =
      replicate_configs-AreReplicas role d.host (format_name d.name host_sequence) n host_sequence _
        (λ seq dc g.
          new_deploy_config-IsReplica ctx kind role d.host d.name n host_sequence seq
            (deep_copy config) g)
        n 0 h2 in
    (
      subst (λ k. 0 < k) (sym len) (replicas_of-positive d.replicas d.replica e),
      e ∙ ap ok (sym len),
      subst (λ k. AreReplicas role d.host (format_name d.name host_sequence) k host_sequence 0 dcs)
          (sym len) are,
    )
