-- ===== src/Instruction/Lob.antt =====
-- `OWNING_LOB_PATTERN` and `is_valid_owning_lob` of models/enums.py, on the code points of the text.
-- The pattern's `$` also matches in front of one newline at the end of the text.
pub mod Grammar
use Prim.Native.Char.{code}
use Prim.Native.String.{String}
use security_event_rag_demo.Base.{ℕ, Bool, true, false, ◌&&◌, ◌||◌, List, [], ◌∷◌, leb, ◌==◌}

-- The code points of a text.
abbrev pub codes : String → List ℕ
codes String.[] = []
codes (String.◌∷◌ c s) = code c ∷ codes s

pub is_upper : ℕ → Bool
is_upper c = leb b'A' c && leb c b'Z'

-- `[A-Z0-9_]`
pub is_desk_char : ℕ → Bool
unfolding is_upper
is_desk_char c = is_upper c || (leb b'0' c && leb c b'9') || c == b'_'

-- `$`: the end, or a newline that is the end.
unfoldable pub at_end : List ℕ → Bool
at_end [] = true
at_end (c ∷ []) = c == 10
at_end _ = false

-- A fixed text, and then what `k` wants.
unfoldable pub literal : List ℕ → (List ℕ → Bool) → List ℕ → Bool
literal [] k s = k s
literal (c ∷ cs) k [] = false
literal (c ∷ cs) k (d ∷ s) = c == d && literal cs k s

-- `[A-Z0-9_]*$`
unfoldable pub desk_rest : List ℕ → Bool
unfolding is_desk_char at_end
desk_rest [] = true
desk_rest (c ∷ s) = (is_desk_char c && desk_rest s) || at_end (c ∷ s)

-- `[A-Z][A-Z0-9_]*$`
unfoldable pub desk_name : List ℕ → Bool
unfolding is_upper desk_rest
desk_name [] = false
desk_name (c ∷ s) = is_upper c && desk_rest s

-- `^(FICC|FX|DESK_[A-Z][A-Z0-9_]*)$`
unfoldable pub match_owning_lob : List ℕ → Bool
unfolding literal desk_name at_end
match_owning_lob s =
    literal (codes "FICC") at_end s
    || literal (codes "FX") at_end s
    || literal (codes "DESK_") desk_name s

unfoldable pub is_valid_owning_lob : String → Bool
unfolding match_owning_lob
is_valid_owning_lob value = match_owning_lob (codes value)
