-- ===== src/Execution/Payload.antt =====
-- The values of a dynamic payload, `dict[str, Any]`: metadata, `to_dict` and `raw_payload`.
use chainer_trader.Prelude.{◌≡◌, refl, Bool, Option, none, some, String, arith, if◌then◌else◌}
use chainer_trader.Prelude.Int.{ℤ}
use chainer_trader.Prelude.Text.{str_eq, str_eq_iff}

mutual
  pub data Value (F : Type 0) : Type 0 where
    null : Value F
    flag : Bool → Value F
    int : ℤ → Value F
    num : F → Value F
    text : String → Value F
    arr : Items F → Value F
    obj : Fields F → Value F

  pub data Items (F : Type 0) : Type 0 where
    nil : Items F
    cons : Value F → Items F → Items F

  -- a dict, in insertion order
  pub data Fields (F : Type 0) : Type 0 where
    end : Fields F
    field : String → Value F → Fields F → Fields F

module _ {F : Type 0} where
  -- `d.get(k)`
  unfoldable pub lookup : String → Fields F → Option (Value F)
  lookup k end = none
  lookup k (field j v d) = if str_eq j k then some v else lookup k d

  -- `d[k] = v`
  unfoldable pub insert : String → Value F → Fields F → Fields F
  insert k v end = field k v end
  insert k v (field j w d) = if str_eq j k then field k v d else field j w (insert k v d)

  -- `{**a, **b}`
  unfoldable pub merge : Fields F → Fields F → Fields F
  unfolding insert
  merge a end = a
  merge a (field k v b) = merge (insert k v a) b

  -- `value` of an optional number or text, with `None` as null
  abbrev pub opt_num : Option F → Value F
  opt_num none = null
  opt_num (some x) = num x

  abbrev pub opt_text : Option String → Value F
  opt_text none = null
  opt_text (some s) = text s

  pub lookup-insert :
      (k j : String) (v : Value F) (d : Fields F)
      → lookup j (insert k v d) ≡ (if str_eq k j then some v else lookup j d)
  unfolding lookup insert
  lookup-insert k j v end = refl
  lookup-insert k j v (field i w d) =
      ground (arith, str_eq_iff k j, str_eq_iff i k, str_eq_iff i j, lookup-insert k j v d)
