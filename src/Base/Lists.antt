-- ===== src/Base/Lists.antt =====
-- Lists measured by native numbers, and searches by a Boolean test.
use Prim.Native.Nat.{ℕ, zero, suc, ◌+◌}
use mathlib.Core.Path.{◌≡◌, refl, sym, ap, ◌∙◌, subst}
use mathlib.Core.Logic.{◌≢◌}
use mathlib.Core.Bool.{Bool, true, false, ◌&&◌, ◌||◌}
use mathlib.Core.Option.{Option, none, some}
use mathlib.Core.List.{List, [], ◌∷◌, ◌++◌}
use native.Mathlib.Omega.{arith}
use security_event_rag_demo.Base.Tests.{if◌then◌else◌}

pub some_inj {ℓ} : {A : Type ℓ} {x y : A} → ◌≡◌ {A = Option A} (some x) (some y) → x ≡ y
some_inj e = cc

module _ {ℓ} {A : Type ℓ} where
  abbrev pub length : List A → ℕ
  length [] = 0
  length (x ∷ xs) = suc (length xs)

  abbrev pub take : ℕ → List A → List A
  take zero xs = []
  take (suc n) [] = []
  take (suc n) (x ∷ xs) = x ∷ take n xs

  -- The elements that pass a test, in order.
  abbrev pub select : (A → Bool) → List A → List A
  select p [] = []
  select p (x ∷ xs) = let rest = select p xs in if p x then x ∷ rest else rest

  -- The first element that passes a test.
  abbrev pub first : (A → Bool) → List A → Option A
  first p [] = none
  first p (x ∷ xs) = let rest = first p xs in if p x then some x else rest

  -- The first element that passes a test, replaced.
  abbrev pub update_first : (A → Bool) → (A → A) → List A → List A
  update_first p f [] = []
  update_first p f (x ∷ xs) = let rest = update_first p f xs in if p x then f x ∷ xs else x ∷ rest

  -- Every element passes; some element passes.
  abbrev pub all : (A → Bool) → List A → Bool
  all p [] = true
  all p (x ∷ xs) = p x && all p xs

  abbrev pub any : (A → Bool) → List A → Bool
  any p [] = false
  any p (x ∷ xs) = p x || any p xs

  abbrev pub All {κ} : (A → Type κ) → List A → Type κ
  All P [] = Unit
  All P (x ∷ xs) = P x × All P xs

  pub length-append : (xs ys : List A) → length (xs ++ ys) ≡ length xs + length ys
  length-append [] ys = omega arith
  length-append (x ∷ xs) ys = omega (arith, length-append xs ys)

  pub select-append :
      (p : A → Bool) (xs ys : List A) → select p (xs ++ ys) ≡ select p xs ++ select p ys
  select-append p [] ys = refl
  select-append p (x ∷ xs) ys = ground (arith, select-append p xs ys)

  pub any-append : (p : A → Bool) (xs ys : List A) → any p (xs ++ ys) ≡ (any p xs || any p ys)
  any-append p [] ys = refl
  any-append p (x ∷ xs) ys = ground (arith, any-append p xs ys)

first_at :
    {A : Type 0} (q : A → Bool) (b : Bool) (x e : A) (later : Option A)
    → q x ≡ b
    → (if b then some x else later) ≡ some e
    → (later ≡ some e → q e ≡ true)
    → q e ≡ true
first_at q true x e later h found there = ap q (sym (some_inj found)) ∙ h
first_at q false x e later h found there = there found

-- The first element that passes a test passes it.
pub first-passes :
    {A : Type 0} (q : A → Bool) (xs : List A) (e : A) → first q xs ≡ some e → q e ≡ true
first-passes q [] e h = absurd (cc h)
first-passes q (x ∷ xs) e h = first_at q (q x) x e (first q xs) refl h (first-passes q xs e)

-- A property of every element holds of the first that passes a test, and is kept when that one is
-- replaced by another with the property.
module _ {ℓ κ} {A : Type ℓ} (P : A → Type κ) where
  found_or_later :
      (b : Bool) (x e : A) (later : Option A)
      → (if b then some x else later) ≡ some e
      → P x
      → (later ≡ some e → P e)
      → P e
  found_or_later true x e later h here there = subst P (some_inj h) here
  found_or_later false x e later h here there = there h

  pub first-All : (q : A → Bool) (xs : List A) (e : A) → All P xs → first q xs ≡ some e → P e
  first-All q [] e h f = absurd (cc f)
  first-All q (x ∷ xs) e h f = found_or_later (q x) x e (first q xs) f h.0 (first-All q xs e h.1)

  replaced_or_later :
      (b : Bool) (x y e : A) (xs rest : List A) (later : Option A)
      → (if b then some x else later) ≡ some e
      → P x
      → All P xs
      → (x ≡ e → P y)
      → (later ≡ some e → All P rest)
      → All P (if b then y ∷ xs else x ∷ rest)
  replaced_or_later true x y e xs rest later h here all new there = (new (some_inj h), all)
  replaced_or_later false x y e xs rest later h here all new there = (here, there h)

  pub update_first-All :
      (q : A → Bool) (f : A → A) (xs : List A) (e : A)
      → All P xs
      → first q xs ≡ some e
      → P (f e)
      → All P (update_first q f xs)
  update_first-All q f [] e h found k = tt
  update_first-All q f (x ∷ xs) e h found k =
      replaced_or_later (q x) x (f x) e xs (update_first q f xs) (first q xs) found h.0 h.1
        (λ same. subst (λ y. P (f y)) (sym same) k) (λ later. update_first-All q f xs e h.1 later k)

  pub append-All : (xs ys : List A) → All P xs → All P ys → All P (xs ++ ys)
  append-All [] ys h k = k
  append-All (x ∷ xs) ys h k = (h.0, append-All xs ys h.1 k)

-- A property of every element gives a weaker one.
pub weaken-All {ℓ κ ι} :
    {A : Type ℓ} {P : A → Type κ} {Q : A → Type ι} (xs : List A)
    → ((x : A) → P x → Q x)
    → All P xs
    → All Q xs
weaken-All [] w h = tt
weaken-All (x ∷ xs) w h = (w x h.0, weaken-All xs w h.1)

-- No element occurs twice.
abbrev pub Distinct {ℓ} : {A : Type ℓ} → List A → Type ℓ
Distinct [] = Unit
Distinct (x ∷ xs) = All (λ y. y ≢ x) xs × Distinct xs
