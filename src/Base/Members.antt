-- ===== src/Base/Members.antt =====
-- What the Boolean searches of lists find, as membership.
use mathlib.Core.Path.{◌≡◌, refl, sym, ap, ◌∙◌}
use mathlib.Core.Logic.{◌↔◌, ◌⊎◌, inl, inr}
use mathlib.Core.Bool.{Bool, true, false, ◌||◌}
use mathlib.Core.List.{List, [], ◌∷◌, Memᴰ}
use mathlib.Core.List.Memᴰ
use Prim.Native.String.{String}
use text.Mathlib.TextEquality.{eq_iff}
use security_event_rag_demo.Base.Tests.{contains, str_eq, if◌then◌else◌}
use security_event_rag_demo.Base.Lists.{any, select}

pub or_cases : (a b : Bool) → (a || b) ≡ true → (a ≡ true) ⊎ (b ≡ true)
or_cases true b h = inl refl
or_cases false b h = inr h

pub or_left : (a b : Bool) → a ≡ true → (a || b) ≡ true
or_left true b h = refl
or_left false b h = absurd (cc h)

pub or_right : (a b : Bool) → b ≡ true → (a || b) ≡ true
or_right true b h = refl
or_right false b h = h

module _ {A : Type 0} where
  -- `any` finds an element that passes.
  pub any_iff :
      (q : A → Bool) (xs : List A) → (any q xs ≡ true) ↔ ((x : A) × Memᴰ x xs × (q x ≡ true))
  any_iff q xs = (found xs, λ w. passes xs w.0 w.1 w.2)
    where
      found : (ys : List A) → any q ys ≡ true → (x : A) × Memᴰ x ys × (q x ≡ true)
      found [] h = absurd (cc h)
      found (y ∷ ys) h = elim (or_cases (q y) (any q ys) h) [
        | inl e ↦ (y, Memᴰ.head refl, e)
        | inr e ↦ let w = found ys e in (w.0, Memᴰ.tail w.1, w.2)
      ]

      passes : (ys : List A) (x : A) → Memᴰ x ys → q x ≡ true → any q ys ≡ true
      passes [] x m h = elim m [ ]
      passes (y ∷ ys) x (Memᴰ.head e) h = or_left (q y) (any q ys) (ap q (sym e) ∙ h)
      passes (y ∷ ys) x (Memᴰ.tail m) h = or_right (q y) (any q ys) (passes ys x m h)

  -- `select` keeps what passes, and nothing else.
  pub select_iff :
      (q : A → Bool) (xs : List A) (x : A) → Memᴰ x (select q xs) ↔ (Memᴰ x xs × (q x ≡ true))
  select_iff q xs x = (kept xs, λ w. keeps xs w.0 w.1)
    where
      here_or_later :
          (b : Bool) (y : A) (ys : List A)
          → q y ≡ b
          → (Memᴰ x (select q ys) → Memᴰ x ys × (q x ≡ true))
          → Memᴰ x (if b then y ∷ select q ys else select q ys)
          → Memᴰ x (y ∷ ys) × (q x ≡ true)
      here_or_later true y ys h later (Memᴰ.head e) = (Memᴰ.head e, ap q e ∙ h)
      here_or_later true y ys h later (Memᴰ.tail m) = let w = later m in (Memᴰ.tail w.0, w.1)
      here_or_later false y ys h later m = let w = later m in (Memᴰ.tail w.0, w.1)

      kept : (ys : List A) → Memᴰ x (select q ys) → Memᴰ x ys × (q x ≡ true)
      kept [] m = absurd (Memᴰ.not-nil m)
      kept (y ∷ ys) m = here_or_later (q y) y ys refl (kept ys) m

      kept_here :
          (b : Bool) (y : A) (ys : List A)
          → q y ≡ b
          → x ≡ y
          → q x ≡ true
          → Memᴰ x (if b then y ∷ ys else ys)
      kept_here true y ys h e k = Memᴰ.head e
      kept_here false y ys h e k = absurd (cc (h, k, ap q e))

      kept_later : (b : Bool) (y : A) (ys : List A) → Memᴰ x ys → Memᴰ x (if b then y ∷ ys else ys)
      kept_later true y ys m = Memᴰ.tail m
      kept_later false y ys m = m

      keeps : (ys : List A) → Memᴰ x ys → q x ≡ true → Memᴰ x (select q ys)
      keeps [] m k = elim m [ ]
      keeps (y ∷ ys) (Memᴰ.head e) k = kept_here (q y) y (select q ys) refl e k
      keeps (y ∷ ys) (Memᴰ.tail m) k = kept_later (q y) y (select q ys) (keeps ys m k)

-- `s in xs`
pub contains_iff : (xs : List String) (s : String) → (contains xs s ≡ true) ↔ Memᴰ s xs
unfolding contains
contains_iff xs s = (found xs, passes xs)
  where
    found : (ys : List String) → contains ys s ≡ true → Memᴰ s ys
    found [] h = absurd (cc h)
    found (y ∷ ys) h = elim (or_cases (str_eq y s) (contains ys s) h) [
      | inl e ↦ Memᴰ.head (sym ((eq_iff y s).0 e))
      | inr e ↦ Memᴰ.tail (found ys e)
    ]

    passes : (ys : List String) → Memᴰ s ys → contains ys s ≡ true
    passes [] m = elim m [ ]
    passes (y ∷ ys) (Memᴰ.head e) = or_left (str_eq y s) (contains ys s) ((eq_iff y s).1 (sym e))
    passes (y ∷ ys) (Memᴰ.tail m) = or_right (str_eq y s) (contains ys s) (passes ys m)
