-- ===== src/Sequence/Ids.antt =====
-- An id is made of a counter and a number in one way (sequence-service/src/seq/formatting.py).
use Prim.Native.String.{◌∷◌}
use text.Mathlib.TextLemmas.{cons-append, nil-append, tail-eq_of_cons-eq, head-eq_of_cons-eq}
use security_event_rag_demo.Base.{ℕ, String, ◌<>◌, ◌≡◌, refl, sym, ap, ◌∙◌, false, ◌∷◌, arith}
use security_event_rag_demo.Base.Decimal.{decimal}
use security_event_rag_demo.Base.Decimal.Reads.{
  has_dash, has_dash-append, decimal-dash, decimal_inj,
}

-- A dash in front of a text without one stands out.
dash_front : (a b s : String) → has_dash a ≡ false → a ≡ s <> ("-" ∷ b) → ⊥
unfolding has_dash
dash_front a b s h e = ground (arith, h, ap has_dash e, has_dash-append s ("-" ∷ b))

-- The last dash splits a text in one way.
split_last :
    (s t a b : String)
    → has_dash a ≡ false
    → has_dash b ≡ false
    → s <> ("-" ∷ a) ≡ t <> ("-" ∷ b)
    → (s ≡ t) × (a ≡ b)
split_last String.[] String.[] a b h k e =
    (refl, tail-eq_of_cons-eq (sym (nil-append ("-" ∷ a)) ∙ e ∙ nil-append ("-" ∷ b)))
split_last String.[] (c ∷ t) a b h k e = absurd (
    dash_front a b t h
      (tail-eq_of_cons-eq (sym (nil-append ("-" ∷ a)) ∙ e ∙ cons-append c t ("-" ∷ b))))
split_last (c ∷ s) String.[] a b h k e = absurd (
    dash_front b a s k
      (tail-eq_of_cons-eq (sym (nil-append ("-" ∷ b)) ∙ sym e ∙ cons-append c s ("-" ∷ a))))
split_last (c ∷ s) (d ∷ t) a b h k e =
    let whole = sym (cons-append c s ("-" ∷ a)) ∙ e ∙ cons-append d t ("-" ∷ b) in
    let rest = split_last s t a b h k (tail-eq_of_cons-eq whole) in
    (ap (λ x. x ∷ s) (head-eq_of_cons-eq whole) ∙ ap (λ x. d ∷ x) rest.0, rest.1)

-- A counter's key and a number make an id in one way.
unfoldable pub numbered_id : String → ℕ → String
numbered_id key n = key <> "-" <> decimal n

pub id_inj : (j k : String) (m n : ℕ) → numbered_id j m ≡ numbered_id k n → (j ≡ k) × (m ≡ n)
unfolding numbered_id
id_inj j k m n e =
    let dashed = λ (s : String). cons-append "-" "" s ∙ ap (λ x. "-" ∷ x) (nil-append s) in
    let both =
      split_last j k (decimal m) (decimal n) (decimal-dash m) (decimal-dash n)
        (ap (λ x. j <> x) (sym (dashed (decimal m))) ∙ e ∙ ap (λ x. k <> x) (dashed (decimal n))) in
    (both.0, decimal_inj m n both.1)
