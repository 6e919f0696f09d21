-- ===== src/Authz/Sorting.antt =====
-- Python's `sorted(…, key=…)` by a text: stable, by code points.
use Prim.Native.Nat.{Ordering}
use Prim.Native.String.{compare as compare_text}
use security_event_rag_demo.Base.{String, Bool, true, false, List, [], ◌∷◌, All, if◌then◌else◌}

abbrev pub text_leb : String → String → Bool
text_leb s t = elim (compare_text s t) [ Ordering.gt ↦ false | _ ↦ true ]

module _ {A : Type 0} (key : A → String) where
  unfoldable pub insert_by : A → List A → List A
  insert_by x [] = x ∷ []
  insert_by x (y ∷ ys) =
      let rest = insert_by x ys in if text_leb (key x) (key y) then x ∷ y ∷ ys else y ∷ rest

  unfoldable pub sorted_by : List A → List A
  unfolding insert_by
  sorted_by [] = []
  sorted_by (x ∷ xs) = insert_by x (sorted_by xs)

  module _ (P : A → Type 0) where
    placed :
        (b : Bool) (x y : A) (ys rest : List A)
        → P x
        → P y
        → All P ys
        → All P rest
        → All P (if b then x ∷ y ∷ ys else y ∷ rest)
    placed true x y ys rest h k l m = (h, (k, l))
    placed false x y ys rest h k l m = (k, m)

    insert_by-All : (x : A) (ys : List A) → P x → All P ys → All P (insert_by x ys)
    unfolding insert_by
    insert_by-All x [] h k = (h, tt)
    insert_by-All x (y ∷ ys) h k =
        placed (text_leb (key x) (key y)) x y ys (insert_by x ys) h k.0 k.1
          (insert_by-All x ys h k.1)

    -- A sorted list has the elements of the list.
    pub sorted_by-All : (xs : List A) → All P xs → All P (sorted_by xs)
    unfolding sorted_by
    sorted_by-All [] h = tt
    sorted_by-All (x ∷ xs) h = insert_by-All x (sorted_by xs) h.0 (sorted_by-All xs h.1)
