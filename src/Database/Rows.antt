-- ===== src/Database/Rows.antt =====
-- The queries that a collection makes of a table with a unique text key, through Tortoise ORM.
-- The ORM and the database are not part of the repository: their operations are parameters, and
-- their documented behaviour is `RowLaws`. The rows are those that the columns take: on a text that is
-- longer than its column, or a missing value, the ORM raises before it writes, which is not modelled.
use chainer_trader.Prelude.{
  ◌≡◌, refl, ℕ, Option, none, some, List, [], ◌∷◌, String, arith, is_some, if◌then◌else◌,
}
use chainer_trader.Prelude.Text.{str_eq, str_eq_iff}

pub record Rows (T R : Type 0) : Type 0 where
  -- `Model.filter(key=k).first()`
  pub find : String → T → Option R
  -- `Model.filter(key=k).update(**row)`: the number of rows, and the table
  pub update : String → R → T → ℕ × T
  -- `Model.create(key=k, **row)`, and `none` for the `IntegrityError` of a duplicate key
  pub create : String → R → T → Option T

pub record RowLaws {T R : Type 0} (db : Rows T R) : Type 0 where
  -- an update of a key that is absent touches no row
  pub update_absent : (k : String) (r : R) (t : T) → db.find k t ≡ none → db.update k r t ≡ (0, t)
  -- an update of a key that is present counts its row
  pub update_present :
      (k : String) (r x : R) (t : T) → db.find k t ≡ some x → (db.update k r t).0 ≡ 1
  -- and changes the row of that key alone
  pub find-update :
      (k j : String) (r x : R) (t : T)
      → db.find k t ≡ some x
      → db.find j (db.update k r t).1 ≡ (if str_eq k j then some r else db.find j t)
  -- a creation is refused exactly when the key is present (of a row that the columns take)
  pub create_present :
      (k : String) (r x : R) (t : T) → db.find k t ≡ some x → db.create k r t ≡ none
  pub create_absent :
      (k : String) (r : R) (t : T)
      → db.find k t ≡ none
      → (t' : T) × (db.create k r t ≡ some t')
        × ((j : String) → db.find j t' ≡ (if str_eq k j then some r else db.find j t))

-- A table as an association list: the laws can be met.
module _ {R : Type 0} where
  abbrev pub assoc_find : String → List (String × R) → Option R
  assoc_find k [] = none
  assoc_find k ((j, r) ∷ t) = if str_eq j k then some r else assoc_find k t

  abbrev pub assoc_set : String → R → List (String × R) → List (String × R)
  assoc_set k r [] = []
  assoc_set k r ((j, x) ∷ t) = if str_eq j k then (k, r) ∷ t else (j, x) ∷ assoc_set k r t

  abbrev pub assoc_rows : Rows (List (String × R)) R
  assoc_rows = record {
    find = assoc_find;
    update = λ k r t. (if is_some (assoc_find k t) then 1 else 0, assoc_set k r t);
    create = λ k r t. if is_some (assoc_find k t) then none else some ((k, r) ∷ t);
  }

  assoc_set_absent :
      (k : String) (r : R) (t : List (String × R)) → assoc_find k t ≡ none → assoc_set k r t ≡ t
  assoc_set_absent k r [] h = refl
  assoc_set_absent k r ((j, x) ∷ t) h = ground (arith, assoc_set_absent k r t)

  assoc_find-set :
      (k j : String) (r x : R) (t : List (String × R))
      → assoc_find k t ≡ some x
      → assoc_find j (assoc_set k r t) ≡ (if str_eq k j then some r else assoc_find j t)
  assoc_find-set k j r x [] h = cc
  assoc_find-set k j r x ((i, y) ∷ t) h =
      ground (arith, assoc_find-set k j r x t, str_eq_iff i k, str_eq_iff i j, str_eq_iff k j)

  pub assoc_rows-RowLaws : RowLaws assoc_rows
  assoc_rows-RowLaws = record {
    update_absent = λ k r t h. ground (arith, assoc_set_absent k r t h);
    update_present = λ k r x t h. ground arith;
    find-update = λ k j r x t h. assoc_find-set k j r x t h;
    create_present = λ k r x t h. ground arith;
    create_absent = λ k r t h. ((k, r) ∷ t, ground arith, λ j. refl);
  }
