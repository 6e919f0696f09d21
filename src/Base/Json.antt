-- ===== src/Base/Json.antt =====
-- Python's `dict[str, Any]` of JSON values, in insertion order.
pub mod Merge
use mathlib.Core.Path.{◌≡◌, refl}
use mathlib.Core.Option.{Option, none, some}
use mathlib.Core.List.{List, [], ◌∷◌}
use mathlib.Core.Bool.{Bool}
use Prim.Native.Nat.{ℕ}
use Prim.Native.String.{String}
use native.Mathlib.Omega.{arith}
use text.Mathlib.TextEquality.{eq_iff}
use security_event_rag_demo.Base.Tests.{str_eq, if◌then◌else◌}

mutual
  pub data Value : Type 0 where
    null : Value
    str : String → Value
    number : ℕ → Value
    -- A float, by its `repr`.
    real : String → Value
    flag : Bool → Value
    array : Items → Value
    object : Fields → Value

  pub data Items : Type 0 where
    nil : Items
    cons : Value → Items → Items

  pub data Fields : Type 0 where
    end : Fields
    field : String → Value → Fields → Fields

abbrev pub optional : Option String → Value
optional none = null
optional (some s) = str s

abbrev pub texts_items : List String → Items
texts_items [] = nil
texts_items (s ∷ rest) = cons (str s) (texts_items rest)

abbrev pub texts : List String → Value
texts l = array (texts_items l)

-- `d.get(key)`: `None` where the key is absent.
unfoldable pub get : String → Fields → Value
get k end = null
get k (field j v rest) = let found = get k rest in if str_eq j k then v else found

-- `d[key] = value`
unfoldable pub put : String → Value → Fields → Fields
put k v end = field k v end
put k v (field j w rest) =
    let changed = put k v rest in if str_eq j k then field k v rest else field j w changed

-- `{**a, **b}`
unfoldable pub merge : Fields → Fields → Fields
merge a end = a
merge a (field k v rest) = merge (put k v a) rest

pub get-put :
    (k j : String) (v : Value) (d : Fields)
    → get j (put k v d) ≡ (if str_eq k j then v else get j d)
unfolding get put
get-put k j v end = refl
get-put k j v (field i w rest) =
    ground (arith, eq_iff k j, eq_iff i k, eq_iff i j, get-put k j v rest)

-- The texts of an array, and of anything else none.
pub array_texts : Items → List String
array_texts nil = []
array_texts (cons (str s) rest) = s ∷ array_texts rest
array_texts (cons _ rest) = array_texts rest

-- `.get(key)` on `x or {}`.
abbrev pub fields_of : Value → Fields
fields_of (object d) = d
fields_of _ = end

abbrev pub text_of : Value → Option String
text_of (str s) = some s
text_of _ = none
