-- ===== src/Base/Json/Merge.antt =====
-- Looking up a key in a merged dictionary.
use security_event_rag_demo.Base.{
  ◌≡◌, refl, String, Bool, false, ◌||◌, arith, str_eq, eq_iff, if◌then◌else◌,
}
use security_event_rag_demo.Base.Json.{Value, Fields, field, end, get, put, merge, get-put}

unfoldable pub has_key : String → Fields → Bool
has_key k end = false
has_key k (field j v rest) = str_eq j k || has_key k rest

-- No key occurs twice, as in every dictionary.
unfoldable pub HasUniqueKeys : Fields → Type 0
HasUniqueKeys end = Unit
HasUniqueKeys (field k v rest) = (has_key k rest ≡ false) × HasUniqueKeys rest

has_key-put :
    (i k : String) (v : Value) (d : Fields) → has_key i (put k v d) ≡ (str_eq k i || has_key i d)
unfolding has_key put
has_key-put i k v end = refl
has_key-put i k v (field j w rest) = ground (arith, has_key-put i k v rest, eq_iff j k, eq_iff k i)

pub put-HasUniqueKeys :
    (k : String) (v : Value) (d : Fields) → HasUniqueKeys d → HasUniqueKeys (put k v d)
unfolding HasUniqueKeys has_key put
put-HasUniqueKeys k v end u = (refl, tt)
put-HasUniqueKeys k v (field j w rest) u =
    ground (arith, put-HasUniqueKeys k v rest u.1, has_key-put j k v rest, eq_iff j k, eq_iff k j)

-- The second dictionary wins.
get-merge :
    (k : String) (a b : Fields)
    → HasUniqueKeys b
    → get k (merge a b) ≡ (if has_key k b then get k b else get k a)
unfolding HasUniqueKeys has_key get merge
get-merge k a end u = refl
get-merge k a (field j w rest) u =
    ground (arith, get-merge k (put j w a) rest u.1, get-put j k w a, eq_iff j k)

pub get-merge-put :
    (k : String) (v : Value) (a d : Fields) → HasUniqueKeys d → get k (merge a (put k v d)) ≡ v
get-merge-put k v a d u = ground (
  arith,
  get-merge k a (put k v d) (put-HasUniqueKeys k v d u),
  has_key-put k k v d,
  get-put k k v d,
  eq_iff k k,
)
