-- ===== src/Models/Json.antt =====
-- The JSON values of the `payload`, `target` and `generation_context` columns, with Python's
-- truth, equality and `dict.get`. A natural number stands as `int`; any other number is `num`,
-- the double that `json.loads` gives or that the integer equals.
use occj.Prelude.{
  ℕ, ◌+◌, String, Bool, true, false, not, ◌&&◌, ◌||◌, Option, none, some, List, [], ◌∷◌, nat_eq,
  ◌==◌, eq_string, if◌then◌else◌,
}
use occj.Models.Float.{Float, Arith, eq_float, f0, f1}

mutual
  pub data Json : Type 0 where
    null : Json
    bool : Bool → Json
    int : ℕ → Json
    num : Float → Json
    str : String → Json
    arr : Items → Json
    obj : Fields → Json

  pub data Items : Type 0 where
    nil : Items
    cons : Json → Items → Items

  pub data Fields : Type 0 where
    end : Fields
    field : String → Json → Fields → Fields

-- `d.get(key)`: a missing key reads as `None`
unfoldable pub get : Fields → String → Json
get end key = null
get (field k v fs) key = if k == key then v else get fs key

unfoldable pub has_key : Fields → String → Bool
has_key end key = false
has_key (field k v fs) key = k == key || has_key fs key

-- `d.get(key, default)`
unfoldable pub get_or : Fields → String → Json → Json
unfolding get has_key
get_or fs key default = if has_key fs key then get fs key else default

-- `bool(v)`
unfoldable pub truthy : Json → Bool
unfolding eq_float
truthy null = false
truthy (bool b) = b
truthy (int n) = not (nat_eq n 0)
truthy (num x) = not (eq_float x f0)
truthy (str s) = not (s == "")
truthy (arr nil) = false
truthy (arr (cons v vs)) = true
truthy (obj end) = false
truthy (obj (field k v fs)) = true

-- `a or b`
unfoldable pub or_json : Json → Json → Json
unfolding truthy
or_json a b = if truthy a then a else b

unfoldable pub size_fields : Fields → ℕ
size_fields end = 0
size_fields (field k v fs) = size_fields fs + 1

-- `v == "text"`
unfoldable pub is_str : Json → String → Bool
is_str (str s) t = s == t
is_str _ t = false

-- `v in {"a", "b"}`
unfoldable pub str_in : Json → List String → Bool
unfolding is_str
str_in v [] = false
str_in v (t ∷ ts) = is_str v t || str_in v ts

unfoldable pub str_list : List String → Items
str_list [] = nil
str_list (s ∷ ss) = cons (str s) (str_list ss)

abbrev pub of_option : Option String → Json
of_option none = null
of_option (some s) = str s

module _ (ar : Arith) where
  open ar use {of_nat, parse}

  abbrev pub of_bool : Bool → Float
  of_bool b = if b then f1 else f0

  -- numbers compare by value, and `True` is 1
  unfoldable pub num_of : Json → Option Float
  num_of (bool b) = some (of_bool b)
  num_of (int n) = some (of_nat n)
  num_of (num x) = some x
  num_of _ = none

  abbrev eq_num : Option Float → Option Float → Bool
  eq_num (some x) (some y) = eq_float x y
  eq_num _ _ = false

  -- `a == b`. Dictionaries are equal if they have as many keys, and each key of one has in the
  -- other a value that is equal.
  unfoldable mutual
    unfolding num_of eq_float has_key get size_fields

    pub eq_json : Json → Json → Bool
    eq_json null null = true
    eq_json (int m) (int n) = nat_eq m n
    eq_json (str s) (str t) = s == t
    eq_json (arr vs) (arr ws) = eq_items vs ws
    eq_json (obj fs) (obj gs) = nat_eq (size_fields fs) (size_fields gs) && sub_fields fs gs
    eq_json (bool b) j = eq_num (some (of_bool b)) (num_of j)
    eq_json (int n) j = eq_num (some (of_nat n)) (num_of j)
    eq_json (num x) j = eq_num (some x) (num_of j)
    eq_json _ _ = false

    pub eq_items : Items → Items → Bool
    eq_items nil nil = true
    eq_items (cons v vs) (cons w ws) = eq_json v w && eq_items vs ws
    eq_items _ _ = false

    pub sub_fields : Fields → Fields → Bool
    sub_fields end gs = true
    sub_fields (field k v fs) gs = has_key gs k && eq_json v (get gs k) && sub_fields fs gs

  -- `payload == payload` for two dictionaries
  unfoldable pub eq_fields : Fields → Fields → Bool
  unfolding eq_json
  eq_fields fs gs = eq_json (obj fs) (obj gs)

  -- `float(v)`, which raises on a list, a dictionary, `None` and a text that is no number
  unfoldable pub to_float : Json → Option Float
  unfolding num_of
  to_float (str s) = parse s
  to_float j = num_of j
