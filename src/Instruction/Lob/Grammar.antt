-- ===== src/Instruction/Lob/Grammar.antt =====
-- The texts that the pattern of owning LOBs accepts.
use security_event_rag_demo.Base.{
  ℕ, ◌≡◌, refl, sym, ap, ◌↔◌, ◌⊎◌, inl, inr, String, Bool, true, ◌&&◌, List, [], ◌∷◌, ◌++◌, arith,
  ==_iff, Bool-cases,
}
use mathlib.Core.Path.{subst}
use security_event_rag_demo.Instruction.Lob.{
  codes, is_upper, is_desk_char, at_end, literal, desk_rest, desk_name, match_owning_lob,
  is_valid_owning_lob,
}

pub AllDeskChars : List ℕ → Type 0
AllDeskChars [] = Unit
AllDeskChars (c ∷ s) = (is_desk_char c ≡ true) × AllDeskChars s

-- `FICC`, `FX`, or `DESK_`, a capital letter, and capital letters, digits and underscores.
pub data IsProfitCenter : List ℕ → Type 0 where
  ficc : IsProfitCenter (codes "FICC")
  fx : IsProfitCenter (codes "FX")
  desk :
      (c : ℕ) (r : List ℕ)
      → is_upper c ≡ true
      → AllDeskChars r
      → IsProfitCenter (codes "DESK_" ++ (c ∷ r))

-- A profit center, and at most one newline.
pub record Lob (s : List ℕ) : Type 0 where
  pub body : List ℕ
  pub ending : List ℕ
  pub is_center : IsProfitCenter body
  pub newline_at_most : (ending ≡ []) ⊎ (ending ≡ 10 ∷ [])
  pub split : s ≡ body ++ ending

at_end_iff : (s : List ℕ) → (at_end s ≡ true) ↔ ((s ≡ []) ⊎ (s ≡ 10 ∷ []))
unfolding at_end
at_end_iff [] = (λ h. inl refl, λ h. refl)
at_end_iff (c ∷ []) = ground (arith, ==_iff c 10)
at_end_iff (c ∷ d ∷ s) = ground arith

literal-splits :
    (cs : List ℕ) (k : List ℕ → Bool) (s : List ℕ)
    → literal cs k s ≡ true
    → (r : List ℕ) × (s ≡ cs ++ r) × (k r ≡ true)
unfolding literal
literal-splits [] k s h = (s, refl, h)
literal-splits (c ∷ cs) k [] h = absurd (cc h)
literal-splits (c ∷ cs) k (d ∷ s) h =
    let both : (c ≡ d) × (literal cs k s ≡ true) = ground (arith, ==_iff c d) in
    let rest = literal-splits cs k s both.1 in (rest.0, rw (both.0, rest.1) refl, rest.2)

literal-joins :
    (cs : List ℕ) (k : List ℕ → Bool) (r : List ℕ) → k r ≡ true → literal cs k (cs ++ r) ≡ true
unfolding literal
literal-joins [] k r h = h
literal-joins (c ∷ cs) k r h = ground (arith, ==_iff c c, literal-joins cs k r h)

desk_rest-splits :
    (s : List ℕ)
    → desk_rest s ≡ true
    → (r e : List ℕ) × (s ≡ r ++ e) × AllDeskChars r × (at_end e ≡ true)
unfolding desk_rest AllDeskChars at_end
desk_rest-splits [] h = ([], [], refl, tt, refl)
desk_rest-splits (c ∷ s) h = elim (Bool-cases (is_desk_char c && desk_rest s)) [
  | inl more ↦
      let both : (is_desk_char c ≡ true) × (desk_rest s ≡ true) = ground arith in
      let rest = desk_rest-splits s both.1 in
      (c ∷ rest.0, rest.1, ap (λ l. c ∷ l) rest.2, (both.0, rest.3), rest.4)
  | inr last ↦ ([], c ∷ s, refl, tt, ground arith)
]

desk_rest-joins : (r e : List ℕ) → AllDeskChars r → at_end e ≡ true → desk_rest (r ++ e) ≡ true
unfolding desk_rest AllDeskChars
desk_rest-joins [] [] a h = refl
desk_rest-joins [] (c ∷ e) a h = ground arith
desk_rest-joins (c ∷ r) e a h = ground (arith, desk_rest-joins r e a.1 h)

-- A profit center with an ending passes the pattern.
accepts : (b e : List ℕ) → IsProfitCenter b → at_end e ≡ true → match_owning_lob (b ++ e) ≡ true
unfolding match_owning_lob desk_name
accepts b e ficc h = ground (arith, literal-joins (codes "FICC") at_end e h)
accepts b e fx h = ground (arith, literal-joins (codes "FX") at_end e h)
accepts b e (desk c r u a) h = ground (
  arith,
  literal-joins (codes "DESK_") desk_name (c ∷ (r ++ e)) (ground (arith, desk_rest-joins r e a h)),
)

from_desk : (s r : List ℕ) → s ≡ codes "DESK_" ++ r → desk_name r ≡ true → Lob s
unfolding desk_name
from_desk s [] h d = absurd (cc d)
from_desk s (c ∷ r) h d =
    let both : (is_upper c ≡ true) × (desk_rest r ≡ true) = ground arith in
    let rest = desk_rest-splits r both.1 in
    record {
      body = codes "DESK_" ++ (c ∷ rest.0);
      ending = rest.1;
      is_center = desk c rest.0 both.0 rest.3;
      newline_at_most = (at_end_iff rest.1).0 rest.4;
      split = rw (h, rest.2) refl;
    }

accepted : (s : List ℕ) → match_owning_lob s ≡ true → Lob s
unfolding match_owning_lob
accepted s h = elim (Bool-cases (literal (codes "FICC") at_end s)) [
  | inl f ↦
      (let r = literal-splits (codes "FICC") at_end s f in
        record {
          body = codes "FICC";
          ending = r.0;
          is_center = ficc;
          newline_at_most = (at_end_iff r.0).0 r.2;
          split = r.1;
        })
  | inr not_ficc ↦ elim (Bool-cases (literal (codes "FX") at_end s)) [
    | inl f ↦
        (let r = literal-splits (codes "FX") at_end s f in
          record {
            body = codes "FX";
            ending = r.0;
            is_center = fx;
            newline_at_most = (at_end_iff r.0).0 r.2;
            split = r.1;
          })
    | inr not_fx ↦
        (let r = literal-splits (codes "DESK_") desk_name s (ground arith) in
          from_desk s r.0 r.1 r.2)
  ]
]

-- The validation of an owning LOB accepts exactly the profit centers, each with at most one newline
-- after it.
pub is_valid_owning_lob-ok : (s : String) → (is_valid_owning_lob s ≡ true) ↔ Lob (codes s)
unfolding is_valid_owning_lob
is_valid_owning_lob-ok s = (
  accepted (codes s),
  λ l.
      subst (λ x. match_owning_lob x ≡ true) (sym l.split)
        (accepts l.body l.ending l.is_center ((at_end_iff l.ending).1 l.newline_at_most)),
)
