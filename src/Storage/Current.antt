-- ===== src/Storage/Current.antt =====
-- What the reads of the storage give: the current cluster after a checkout, and what the view says.
use mathlib.Core.Option
use curveadm.Prelude.{
  ◌≡◌, refl, sym, ap, ◌∙◌, subst, arith, String, ◌==◌, eq_iff, true, false, Bool-cases, Option,
  none, some, List, [], ◌∷◌, map, keep, inl, inr, All, left_of, right_of,
}
use curveadm.Storage.{Cluster, Database, Sqlite, refused, constraint, World, Statement, exec_sql}
use curveadm.Storage.Tables.{update_where}
use curveadm.Storage.Found.{found}
use curveadm.Storage.Distinct.{Distinct}
use curveadm.Storage.Ends.{exec_sql-cases, query-cases}
use curveadm.Storage.Sound.{text_eq, IsSound}
use curveadm.Storage.Statements.{sql_checkout_cluster}
use curveadm.Storage.Operations.{no_cluster, only_one, checkout_cluster, get_current_cluster}

abbrev checked_out : String → Cluster → Cluster
checked_out n c = record c { current = c.name == n }

abbrev pub named : List Cluster → String → Option Cluster
named rows n = found (λ c. c.name) (λ c. c) rows n

-- The row of the cluster that was checked out
abbrev pub as_current : Option Cluster → Cluster
as_current none = no_cluster
as_current (some c) = record c { current = true }

others :
    (n : String) (rows : List Cluster)
    → All (λ y. text_eq n y.name ≡ false) rows
    → keep (λ c. c.current) (map (checked_out n) rows) ≡ []
unfolding keep
others n [] h = refl
others n (c ∷ rows) (p, h) =
    let e : (c.name == n) ≡ false = ground (arith, p, eq_iff c.name n, eq_iff n c.name) in
    rw (e) (others n rows h)

only_current :
    (n : String) (rows : List Cluster)
    → Distinct text_eq (λ c. c.name) rows
    → only_one (inr (keep (λ c. c.current) (map (checked_out n) rows)))
      ≡ inr (as_current (named rows n))
unfolding keep found
only_current n [] h = refl
only_current n (c ∷ rows) (p, h) = elim (Bool-cases (c.name == n)) [
  | inl e ↦
      let same : c.name ≡ n = (eq_iff c.name n).0 e in
      rw (e, others n rows (subst (λ k. All (λ y. text_eq k y.name ≡ false) rows) same p)) refl
  | inr e ↦ rw (e) (only_current n rows h)
]

exec_sql-done :
    (sqlite : Sqlite) (statement : Statement) (w w' : World)
    → exec_sql sqlite statement w ≡ (none, w')
    → statement (sqlite.moment w.statements) w.database ≡ some w'.database
exec_sql-done sqlite statement w w' e = elim (exec_sql-cases sqlite statement w) [
  | inl (s, r, f) ↦ let g : some (refused s) ≡ none = sym (left_of f) ∙ left_of e in cc
  | inr (inl (r, k, f)) ↦ let g : some constraint ≡ none = sym (left_of f) ∙ left_of e in cc
  | inr (inr (d, r, k, f)) ↦ k ∙ ap (λ (v : World). some v.database) (sym (right_of f) ∙ right_of e)
]

current_of :
    (sqlite : Sqlite) (w w' : World) (c : Cluster)
    → get_current_cluster sqlite w ≡ (inr c, w')
    → only_one (inr (keep (λ c. c.current) w.database.clusters.rows)) ≡ inr c
unfolding get_current_cluster
current_of sqlite w w' c e =
    elim (query-cases sqlite (λ d. keep (λ c. c.current) d.clusters.rows) w) [
      | inl (s, r, f) ↦
          let g : inl (refused s) ≡ inr c = ap only_one (sym (left_of f)) ∙ left_of e in cc
      | inr f ↦ ap only_one (sym (left_of f)) ∙ left_of e
    ]

-- In a sound database, when a cluster has been checked out without an error and then the current
-- cluster is read without one, the cluster read is the one of that name, marked as current; if no
-- cluster has the name, it is the empty cluster with the id -1.
pub checkout_cluster-get_current_cluster :
    (sqlite : Sqlite) (n : String) (w w' w'' : World) (c : Cluster)
    → IsSound w.database
    → checkout_cluster sqlite n w ≡ (none, w')
    → get_current_cluster sqlite w' ≡ (inr c, w'')
    → c ≡ as_current (named w.database.clusters.rows n)
unfolding checkout_cluster sql_checkout_cluster update_where
checkout_cluster-get_current_cluster sqlite n w w' w'' c h e g =
    let rows =
      ap (λ (o : Option Database). Option.map (λ (d : Database). d.clusters.rows) o)
        (exec_sql-done sqlite (sql_checkout_cluster n) w w' e) in
    let same : map (checked_out n) w.database.clusters.rows ≡ w'.database.clusters.rows = cc in
    let read = current_of sqlite w' w'' c g in
    let kept = only_current n w.database.clusters.rows h.clusters.names in
    let whole : inr c ≡ inr (as_current (named w.database.clusters.rows n)) =
      sym read ∙ (ap (λ rows. only_one (inr (keep (λ c. c.current) rows))) (sym same) ∙ kept) in
    cc
