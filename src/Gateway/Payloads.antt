-- ===== src/Gateway/Payloads.antt =====
-- The order ids of an exchange's answer and the symbol of an intent: `_order_ids` and `_symbol_arg`
-- of execution/gateways.py. An answer is a dict, a list or a scalar; an object that keeps its ids in
-- attributes is not modelled.
use Prim.Native.Char.{Char, code}
use Prim.Native.String.{String, [] as empty, ◌∷◌ as cons_char}
use chainer_trader.Prelude.{
  ◌≡◌, refl, Bool, false, ◌||◌, Option, none, some, List, [], ◌∷◌, ◌++◌, Result, ok, err, ◌>>=◌,
  ◌==◌, if◌then◌else◌,
}
use chainer_trader.Prelude.Int.{pos, eqb_ℤ}
use chainer_trader.Prelude.Float.{Float}
use chainer_trader.Prelude.Text.{str_eq, is_empty, join}
use chainer_trader.Prelude.Text.Show.{show_int}
use chainer_trader.Common.Interval.{Symbol, symbol}
use chainer_trader.Execution.Payload.{
  Value, Items, Fields, null, flag, int, num, text, arr, obj, nil, cons, end, field, lookup,
}

abbrev type_error : String
type_error = "object is not iterable"

module _ {F : Type 0} ⦃fl : Float F⦄ (repr : Value F → String) where
  -- `str(v)`, with `repr` for what is neither a text nor an integer
  abbrev pub str_of : Value F → String
  unfolding show_int
  str_of (text s) = s
  str_of (int n) = show_int n
  str_of v = repr v

  abbrev id_of : Option (Value F) → List String
  id_of none = []
  id_of (some null) = []
  id_of (some v) = str_of v ∷ []

  -- the dict's own ids, of the five keys
  abbrev own_ids : Fields F → List String
  own_ids d =
      id_of (lookup "orderId" d)
      ++ id_of (lookup "order_id" d)
      ++ id_of (lookup "clientOrderId" d)
      ++ id_of (lookup "orderListId" d)
      ++ id_of (lookup "order_list_id" d)

  abbrev joined :
      Result String (List String) → Result String (List String) → Result String (List String)
  joined a b = a >>= λ xs. b >>= λ ys. ok (xs ++ ys)

  mutual
    pub order_ids : Value F → Result String (List String)
    order_ids (obj d) = joined (ok (own_ids d)) (
        joined (children_at "orders" d)
          (joined (children_at "orderReports" d) (children_at "order_reports" d)))
    order_ids (arr xs) = ids_of_items xs
    order_ids null = ok []
    order_ids (flag b) = ok []
    order_ids (int n) = ok []
    order_ids (num x) = ok []
    order_ids (text s) = ok []

    ids_of_items : Items F → Result String (List String)
    ids_of_items nil = ok []
    ids_of_items (cons v xs) = joined (order_ids v) (ids_of_items xs)

    -- `for child in payload.get(key) or []`
    children_at : String → Fields F → Result String (List String)
    children_at key end = ok []
    children_at key (field k v d) =
        let here = ids_of_children v in
        let later = children_at key d in if str_eq k key then here else later

    -- the keys of a dict and the characters of a text have no ids
    ids_of_children : Value F → Result String (List String)
    ids_of_children null = ok []
    ids_of_children (arr xs) = ids_of_items xs
    ids_of_children (obj d) = ok []
    ids_of_children (text s) = ok []
    ids_of_children (flag b) = if b then err type_error else ok []
    ids_of_children (int n) = if eqb_ℤ n (pos 0) then ok [] else err type_error
    ids_of_children (num x) = if fl.eqf x fl.zero_f then ok [] else err type_error

-- `"-" in s`
abbrev has_dash : String → Bool
has_dash empty = false
has_dash (cons_char c s) = code c == 45 || has_dash s

abbrev with_char : Char → Option String → Option String
with_char c none = none
with_char c (some s) = some (cons_char c s)

-- the text before a suffix, if the text ends in it
abbrev cut_suffix : String → String → Option String
cut_suffix q empty = if is_empty q then some empty else none
cut_suffix q (cons_char c s) =
    let later = with_char c (cut_suffix q s) in
    if str_eq q (cons_char c s) then some empty else later

abbrev quote_suffixes : List String
quote_suffixes = "USDT" ∷ "BUSD" ∷ "USDC" ∷ "BTC" ∷ "ETH" ∷ []

abbrev with_quote : String → Symbol → Option String → Symbol
unfolding symbol
with_quote quote other none = other
with_quote quote other (some front) =
    if is_empty front then other else symbol (join front (join "-" quote))

-- the first suffix that the symbol has
abbrev by_suffix : String → List String → Symbol
unfolding symbol
by_suffix s [] = symbol s
by_suffix s (q ∷ qs) = let later = by_suffix s qs in with_quote q later (cut_suffix q s)

unfoldable pub symbol_arg : String → Symbol
unfolding symbol
symbol_arg s = if has_dash s then symbol s else by_suffix s quote_suffixes

symbol_arg_examples :
    (symbol_arg "BTCUSDT" ≡ record { base = "BTC"; quote = "USDT" })
    × (symbol_arg "ETH-BTC" ≡ record { base = "ETH"; quote = "BTC" })
    × (symbol_arg "USDT" ≡ record { base = ""; quote = "" })
unfolding symbol_arg symbol
symbol_arg_examples = (refl, refl, refl)
