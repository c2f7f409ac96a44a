-- ===== src/Storage/Tables.antt =====
-- What a statement does to the rows of one table.
use curveadm.Prelude.{ℕ, suc, Bool, not, ◌||◌, List, [], ◌∷◌, ◌++◌, map, keep, if◌then◌else◌, false}
use curveadm.Storage.{Table}

module _ {A : Type 0} where
  -- UPDATE ... SET ... WHERE test
  unfoldable pub update_where : (A → Bool) → (A → A) → List A → List A
  update_where test f rows = map (λ r. if test r then f r else r) rows

  -- DELETE ... WHERE test
  unfoldable pub delete_where : (A → Bool) → List A → List A
  delete_where test rows = keep (λ r. not (test r)) rows

  -- Some row meets the test.
  unfoldable pub holds : (A → Bool) → List A → Bool
  holds test [] = false
  holds test (r ∷ rs) = test r || holds test rs

  -- INSERT of a row that takes the next id
  unfoldable pub insert_row : (ℕ → A) → Table A → Table A
  insert_row row t = record { rows = t.rows ++ row (suc t.last_id) ∷ []; last_id = suc t.last_id }

  abbrev pub with_rows : (List A → List A) → Table A → Table A
  with_rows f t = record t { rows = f t.rows }
