-- ===== src/Base/Decimal/Reads.antt =====
-- The decimal text of a number can be read back, and has no dash.
use Prim.Native.Nat.{ℕ, zero, suc, ◌+◌, ◌-◌, ◌*◌, ◌<◌, ◌/◌, ◌%◌}
use Prim.Native.Char.{code}
use Prim.Native.String.{String, [], ◌∷◌, ◌++◌ as ◌<>◌}
use mathlib.Core.Path.{◌≡◌, refl, sym, ap, ◌∙◌}
use mathlib.Core.Bool.{Bool, true, false, ◌||◌}
use native.Mathlib.Omega.{arith}
use security_event_rag_demo.Base.Tests.{ltb, ◌==◌, if◌then◌else◌}
use security_event_rag_demo.Base.Decimal.{digit, decimal, decimal_from}
use text.Mathlib.TextLemmas.{cons-append, nil-append}

-- The number that the digits after `n` make.
unfoldable pub read_from : ℕ → String → ℕ
read_from n [] = n
read_from n (c ∷ s) = read_from (10 * n + (code c - 48)) s

unfoldable pub has_dash : String → Bool
has_dash [] = false
has_dash (c ∷ s) = code c == b'-' || has_dash s

pub has_dash-append : (s t : String) → has_dash (s <> t) ≡ (has_dash s || has_dash t)
unfolding has_dash
has_dash-append [] t = rw (nil-append t) refl
has_dash-append (c ∷ s) t = rw (cons-append c s t) (ground (arith, has_dash-append s t))

read_from-append : (n : ℕ) (s t : String) → read_from n (s <> t) ≡ read_from (read_from n s) t
unfolding read_from
read_from-append n [] t = rw (nil-append t) refl
read_from-append n (c ∷ s) t =
    rw (cons-append c s t) (read_from-append (10 * n + (code c - 48)) s t)

-- A digit reads as itself, and is no dash.
digit_lem : (m n : ℕ) → n < 10 → (read_from m (digit n) ≡ 10 * m + n) × (has_dash (digit n) ≡ false)
unfolding read_from has_dash digit
digit_lem m zero h = (omega arith, refl)
digit_lem m (suc zero) h = (omega arith, refl)
digit_lem m (suc (suc zero)) h = (omega arith, refl)
digit_lem m (suc (suc (suc zero))) h = (omega arith, refl)
digit_lem m (suc (suc (suc (suc zero)))) h = (omega arith, refl)
digit_lem m (suc (suc (suc (suc (suc zero))))) h = (omega arith, refl)
digit_lem m (suc (suc (suc (suc (suc (suc zero)))))) h = (omega arith, refl)
digit_lem m (suc (suc (suc (suc (suc (suc (suc zero))))))) h = (omega arith, refl)
digit_lem m (suc (suc (suc (suc (suc (suc (suc (suc zero)))))))) h = (omega arith, refl)
digit_lem m (suc (suc (suc (suc (suc (suc (suc (suc (suc zero))))))))) h = (omega arith, refl)
digit_lem m (suc (suc (suc (suc (suc (suc (suc (suc (suc (suc n)))))))))) h = absurd (omega arith)

divide : (n : ℕ) → 10 * (n / 10) + n % 10 ≡ n
divide n = omega arith

rest_small : (n : ℕ) → n % 10 < 10
rest_small n = omega arith

quotient_small : (n f : ℕ) → n < suc f → 10 < suc n → n / 10 < f
quotient_small n f h k = omega arith

-- The last digit of a number, after the text of the others.
last_digit :
    (high : String) (n : ℕ)
    → (read_from 0 high ≡ n / 10) × (has_dash high ≡ false)
    → (read_from 0 (high <> digit (n % 10)) ≡ n) × (has_dash (high <> digit (n % 10)) ≡ false)
last_digit high n h =
    let last = digit_lem (read_from 0 high) (n % 10) (rest_small n) in
    (
      read_from-append 0 high (digit (n % 10)) ∙ last.0 ∙ omega (arith, h.0, divide n),
      has_dash-append high (digit (n % 10)) ∙ ground (arith, h.1, last.1),
    )

-- With fuel above `n`, the digits of `n` read as `n`.
decimal_from-read :
    (fuel n : ℕ)
    → n < fuel
    → (read_from 0 (decimal_from fuel n) ≡ n) × (has_dash (decimal_from fuel n) ≡ false)
unfolding decimal_from
decimal_from-read zero n h = absurd (omega arith)
decimal_from-read (suc fuel) n h = by_size (ltb n 10) refl (decimal_from-read fuel (n / 10))
  where
    by_size :
        (b : Bool)
        → ltb n 10 ≡ b
        → (n / 10 < fuel
            → (read_from 0 (decimal_from fuel (n / 10)) ≡ n / 10)
              × (has_dash (decimal_from fuel (n / 10)) ≡ false))
        → (read_from 0 (if b then digit n else decimal_from fuel (n / 10) <> digit (n % 10)) ≡ n)
          × (has_dash (if b then digit n else decimal_from fuel (n / 10) <> digit (n % 10)) ≡ false)
    by_size true e higher =
        let alone = digit_lem 0 n (ground (arith, e)) in (alone.0 ∙ omega arith, alone.1)
    by_size false e higher =
        last_digit (decimal_from fuel (n / 10)) n
          (higher (quotient_small n fuel h (ground (arith, e))))

pub decimal-read : (n : ℕ) → read_from 0 (decimal n) ≡ n
unfolding decimal
decimal-read n = (decimal_from-read (suc n) n (omega arith)).0

pub decimal-dash : (n : ℕ) → has_dash (decimal n) ≡ false
unfolding decimal
decimal-dash n = (decimal_from-read (suc n) n (omega arith)).1

pub decimal_inj : (m n : ℕ) → decimal m ≡ decimal n → m ≡ n
decimal_inj m n e = sym (decimal-read m) ∙ ap (read_from 0) e ∙ decimal-read n
