-- ===== src/Clients/Http.antt =====
-- An HTTP exchange. The transport (httpx) is a parameter of the clients.
use Prim.Native.Char.{code}
use Prim.Native.String.{◌∷◌}
use mathlib.Core.Bool.{◌&&◌, ◌||◌}
use security_event_rag_demo.Base.{
  ℕ, String, Bool, true, false, not, Option, none, some, str_eq, ◌==◌, leb, if◌then◌else◌,
}
use security_event_rag_demo.Base.Json.{
  Value, Items, Fields, null, str, number, real, flag, array, object, nil, cons, field, end,
}
use mathlib.Core.List.{List}
use security_event_rag_demo.Base.Exec.{Error, Result, ok, err}

pub record HttpResponse : Type 0 where
  pub status_code : ℕ
  pub text : String
  pub body : Fields

-- `client.post(url, headers=…, json=…)`: `none` is an `httpx.HTTPError`.
abbrev pub Transport : Type 0 → Type 0
Transport O = String → Fields → Fields → O → Option HttpResponse × O

-- `response.raise_for_status()` passes.
abbrev pub is_success : ℕ → Bool
is_success n = leb 200 n && leb n 299

-- `url.rstrip("/")`
unfoldable pub rstrip_slash : String → String
rstrip_slash String.[] = ""
rstrip_slash (c ∷ s) =
    let rest = rstrip_slash s in if str_eq rest "" && code c == b'/' then "" else c ∷ rest

-- `bool(value)`
abbrev pub truth : Value → Bool
truth null = false
truth (str s) = not (str_eq s "")
truth (number n) = not (n == 0)
truth (real s) = not (str_eq s "0.0" || str_eq s "-0.0")
truth (flag b) = b
truth (array nil) = false
truth (array (cons _ _)) = true
truth (object end) = false
truth (object (field _ _ _)) = true

-- The items of an array, where they are texts.
text_items : Items → Result (List String)
text_items nil = ok List.[]
text_items (cons (str s) rest) = elim (text_items rest) [ ok l ↦ ok (List.◌∷◌ s l) | err e ↦ err e ]
text_items (cons _ rest) = err (Error.type_error "an item is no text")

-- What a text and an object have as items: the characters, the keys.
letters : String → List String
letters String.[] = List.[]
letters (c ∷ s) = List.◌∷◌ (c ∷ "") (letters s)

keys : Fields → List String
keys end = List.[]
keys (field k v rest) = List.◌∷◌ k (keys rest)

-- `list(value or [])`. The authorization service declares its lists as lists of texts; an array with
-- another item is refused here.
unfoldable pub text_list : Value → Result (List String)
unfolding text_items letters keys
text_list (array l) = text_items l
text_list (str s) = ok (letters s)
text_list (object d) = ok (keys d)
text_list v = if truth v then err (Error.type_error "object is not iterable") else ok List.[]

-- `if x: headers[key] = prefix + x`
abbrev pub header_opt : String → Option String → Fields → Fields
header_opt key none rest = rest
header_opt key (some s) rest = if str_eq s "" then rest else field key (str s) rest
