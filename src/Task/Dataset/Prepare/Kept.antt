-- ===== src/Task/Dataset/Prepare/Kept.antt =====
-- The results that the resolver keeps.
use chainer_trader.Prelude.{
  ◌≡◌, refl, ℕ, Option, none, some, List, [], ◌∷◌, String, Result, ok, err, arith,
}
use chainer_trader.Prelude.Text.{str_eq_iff}
use chainer_trader.Task.Dataset.{Range}
use chainer_trader.Task.Dataset.Env.{Env, Request, DatasetPreparationResult, build_dataset_key}
use chainer_trader.Task.Dataset.Prepare.{
  Resolver, find_prepared, remember, known, resolve, prepare_at, prepare,
}

remember_kept :
    {W : Type 0} (key k : String) (x : DatasetPreparationResult)
    (kept : List (String × DatasetPreparationResult))
    (a : Result String DatasetPreparationResult × W)
    → find_prepared k kept ≡ some x
    → find_prepared key kept ≡ none
    → find_prepared k (remember key kept a).1.prepared ≡ some x
remember_kept key k x kept (ok y, w) h e = ground (arith, str_eq_iff key k)
remember_kept key k x kept (err y, w) h e = h

module _ {W : Type 0} (env : Env W) where
  -- requests, one after the other
  abbrev pub prepare_all : List Request → Resolver W → Resolver W
  unfolding prepare
  prepare_all [] s = s
  prepare_all (r ∷ rs) s = prepare_all rs (prepare env r s).1

  known_kept :
      (r : Request) (start end : ℕ) (first : Option ℕ) (cached : Option Range) (s : Resolver W)
      (w : W) (k : String) (x : DatasetPreparationResult) (o : Option DatasetPreparationResult)
      → find_prepared (build_dataset_key r.symbol_interval start end) s.prepared ≡ o
      → find_prepared k s.prepared ≡ some x
      → find_prepared k (known env r start end first cached s w o).1.prepared ≡ some x
  known_kept r start end first cached s w k x (some y) e h = h
  known_kept r start end first cached s w k x none e h =
      remember_kept (build_dataset_key r.symbol_interval start end) k x s.prepared
        (resolve env r start end first cached w) h e

  prepare_at_kept :
      (r : Request) (end : ℕ) (s : Resolver W) (k : String) (x : DatasetPreparationResult)
      (a : Result String (ℕ × Option ℕ × Option Range) × W)
      → find_prepared k s.prepared ≡ some x
      → find_prepared k (prepare_at env r end s a).1.prepared ≡ some x
  prepare_at_kept r end s k x (err e, w) h = h
  prepare_at_kept r end s k x (ok (start, first, cached), w) h =
      known_kept r start end first cached s w k x
        (find_prepared (build_dataset_key r.symbol_interval start end) s.prepared) refl h

  -- The result that is kept for a dataset stays, whatever is prepared after it.
  pub prepare_all-keeps :
      (rs : List Request) (s : Resolver W) (k : String) (x : DatasetPreparationResult)
      → find_prepared k s.prepared ≡ some x
      → find_prepared k (prepare_all rs s).prepared ≡ some x
  unfolding prepare
  prepare_all-keeps [] s k x h = h
  prepare_all-keeps (r ∷ rs) s k x h =
      prepare_all-keeps rs (prepare env r s).1 k x (prepare_at_kept r _ s k x _ h)
