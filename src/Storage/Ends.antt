-- ===== src/Storage/Ends.antt =====
-- How the statements and the reads of the storage end.
use curveadm.Prelude.{
  suc, ◌≡◌, refl, String, Option, none, some, Option-cases, List, [], ◌∷◌, take, ◌⊎◌, inl, inr,
}
use curveadm.Storage.{
  Database, Sqlite, Failure, refused, constraint, World, Statement, Call, exec_sql, query, by_first,
}

-- How a statement ends.
pub exec_sql-cases :
    (sqlite : Sqlite) (statement : Statement) (w : World)
    → ((s : String) × (sqlite.refuse w.statements ≡ some s)
        × (exec_sql sqlite statement w
            ≡ (some (refused s), record w { statements = suc w.statements })))
      ⊎ ((sqlite.refuse w.statements ≡ none)
          × (statement (sqlite.moment w.statements) w.database ≡ none)
          × (exec_sql sqlite statement w
              ≡ (some constraint, record w { statements = suc w.statements })))
      ⊎ ((d : Database) × (sqlite.refuse w.statements ≡ none)
          × (statement (sqlite.moment w.statements) w.database ≡ some d)
          × (exec_sql sqlite statement w
              ≡ (none, record { database = d; statements = suc w.statements })))
unfolding exec_sql
exec_sql-cases sqlite statement w = elim (Option-cases (sqlite.refuse w.statements)) [
  | inr (s, e) ↦ inl (s, e, rw (exec_sql, e) refl)
  | inl e ↦ elim (Option-cases (statement (sqlite.moment w.statements) w.database)) [
    | inl f ↦ inr (inl (e, f, rw (exec_sql, e, f) refl))
    | inr (d, f) ↦ inr (inr (d, e, f, rw (exec_sql, e, f) refl))
  ]
]

-- A call that goes on by the first of the rows that it read, if there is one
pub first-cases :
    {A : Type 0} (P : Option Failure × World → Type 0) (rows : List A) (none_read : Call)
    (read : A → Call) (w : World)
    → (rows ≡ [] → P (none_read w))
    → ((a : A) (as' : List A) → rows ≡ a ∷ as' → P (read a w))
    → P (by_first rows none_read read w)
first-cases P [] none_read read w f g = f refl
first-cases P (a ∷ as') none_read read w f g = g a as' refl

pub take-nil : {A : Type 0} (rows : List A) → take 1 rows ≡ [] → rows ≡ []
take-nil [] e = refl
take-nil (r ∷ rows) e = cc

-- How a read ends.
pub query-cases :
    {A : Type 0} (sqlite : Sqlite) (select : Database → List A) (w : World)
    → ((s : String) × (sqlite.refuse w.statements ≡ some s)
        × (query sqlite select w ≡ (inl (refused s), record w { statements = suc w.statements })))
      ⊎ (query sqlite select w
          ≡ (inr (select w.database), record w { statements = suc w.statements }))
unfolding query
query-cases sqlite select w = elim (Option-cases (sqlite.refuse w.statements)) [
  | inl e ↦ inr (rw (query, e) refl)
  | inr (s, e) ↦ inl (s, e, rw (query, e) refl)
]
