-- ===== src/Base/Text.antt =====
-- Python's `str` methods that the services call, over the native texts.
use Prim.Native.Char.{Char, code}
use Prim.Native.String.{String, [], ◌∷◌, ◌++◌ as ◌<>◌}
use mathlib.Core.Bool.{Bool, ◌&&◌, ◌||◌}
use mathlib.Core.List
use mathlib.Core.List.{List}
use mathlib.Core.Path.{◌≡◌, refl}
use security_event_rag_demo.Base.Tests.{leb, ◌==◌, str_eq, is_nonempty, if◌then◌else◌}
use security_event_rag_demo.Base.Lists.{select}

-- `sep.join(parts)`
unfoldable pub join : String → List String → String
join sep List.[] = ""
join sep (List.◌∷◌ s rest) = elim rest [ List.[] ↦ s | List.◌∷◌ _ _ ↦ s <> sep <> join sep rest ]

-- `s.replace("Z", "+00:00")`
unfoldable pub replace_z : String → String
replace_z [] = ""
replace_z (c ∷ s) = let rest = replace_z s in if code c == b'Z' then "+00:00" <> rest else c ∷ rest

-- The characters that `str.strip` removes.
is_space : Char → Bool
is_space c =
    let n = code c in
    (leb 9 n && leb n 13)
    || (leb 28 n && leb n 32)
    || n == 0x85
    || n == 0xa0
    || n == 0x1680
    || (leb 0x2000 n && leb n 0x200a)
    || n == 0x2028
    || n == 0x2029
    || n == 0x202f
    || n == 0x205f
    || n == 0x3000

lstrip : String → String
lstrip [] = ""
lstrip (c ∷ s) = let rest = lstrip s in if is_space c then rest else c ∷ s

rstrip : String → String
rstrip [] = ""
rstrip (c ∷ s) = let rest = rstrip s in if str_eq rest "" && is_space c then "" else c ∷ rest

unfoldable pub strip : String → String
unfolding lstrip rstrip is_space
strip s = lstrip (rstrip s)

-- `s.split(",")`: at least one part.
push_char : Char → List String → List String
push_char c List.[] = List.◌∷◌ (c ∷ "") List.[]
push_char c (List.◌∷◌ p ps) = List.◌∷◌ (c ∷ p) ps

unfoldable pub split_commas : String → List String
unfolding push_char
split_commas [] = List.◌∷◌ "" List.[]
split_commas (c ∷ s) =
    let rest = split_commas s in if code c == b',' then List.◌∷◌ "" rest else push_char c rest

-- `s.lower()` on ASCII: the letter at the same place of the second text.
lower_in : String → String → Char → Char
lower_in (u ∷ us) (l ∷ ls) c = let rest = lower_in us ls c in if code u == code c then l else rest
lower_in _ _ c = c

lower_char : Char → Char
unfolding lower_in
lower_char c = lower_in "ABCDEFGHIJKLMNOPQRSTUVWXYZ" "abcdefghijklmnopqrstuvwxyz" c

-- `s.lower()`
unfoldable pub lower : String → String
unfolding lower_char
lower [] = ""
lower (c ∷ s) = lower_char c ∷ lower s

-- `s.split(" ", 1)[1]`, of a text with a space.
unfoldable pub after_space : String → String
after_space [] = ""
after_space (c ∷ s) = let rest = after_space s in if code c == b' ' then s else rest

-- `[part.strip() for part in s.split(",") if part.strip()]`
unfoldable pub stripped_parts : String → List String
stripped_parts s = select is_nonempty (List.map strip (split_commas s))

-- `s.replace("_", " ").lower()`
unfoldable pub lower_words : String → String
unfolding lower_char
lower_words [] = ""
lower_words (c ∷ s) = (if code c == b'_' then " " else (lower_char c ∷ "")) <> lower_words s

split_commas_test :
    List.map strip (split_commas " etl-reader , ,x")
    ≡ List.◌∷◌ "etl-reader" (List.◌∷◌ "" (List.◌∷◌ "x" List.[]))
unfolding split_commas strip
split_commas_test = refl

lower_words_test : lower_words "SELF_APPROVAL" ≡ "self approval"
unfolding lower_words
lower_words_test = refl

join_test : join "; " (List.◌∷◌ "a" (List.◌∷◌ "b" List.[])) ≡ "a; b"
unfolding join
join_test = refl
