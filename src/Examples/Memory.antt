-- ===== src/Examples/Memory.antt =====
-- A collection in memory, with the documents under the keys "", "k", "kk", ….
use Prim.Native.String.{◌∷◌}
use Prim.Native.Char.{code}
use mathlib.Core.Path.{subst}
use security_event_rag_demo.Base.{
  ℕ, zero, suc, ◌<◌, String, ◌<>◌, ◌≡◌, ◌≢◌, refl, sym, ap, ◌∙◌, ◌&&◌, Bool, true, false, none,
  some, List, [], ◌∷◌, ◌++◌, All, arith, first, update_first, any, select, ◌==◌, is_none,
  if◌then◌else◌,
}
use security_event_rag_demo.Base.Text.{replace_z}
use security_event_rag_demo.Base.Exec.{Error, Result, ok, err}
use security_event_rag_demo.Base.Exec.Frame.{ok_inj}
use security_event_rag_demo.Instruction.Storage.{Iso, Document}
use security_event_rag_demo.Instruction.Platform.{Stored, Collection, CollectionLaws, set_fields}
use security_event_rag_demo.Payment.Platform.{ReplaceLaws}
use security_event_rag_demo.Instruction.Repository.{is_current}
use security_event_rag_demo.Instruction.Repository.History.{HasUniqueIds}

unfoldable pub key : ℕ → String
key zero = ""
key (suc n) = "k" ∷ key n

-- The characters of a text up to a plus sign.
unfoldable pub ticks : String → ℕ
ticks String.[] = 0
ticks (c ∷ s) = if code c == b'+' then 0 else suc (ticks s)

ticks-key : (n : ℕ) → ticks (key n) ≡ n
unfolding key ticks
ticks-key zero = refl
ticks-key (suc n) = rw (ticks-key n) refl

module _ {D : Type 0} where
  abbrev pub numbered : ℕ → List D → List (Stored D)
  numbered n [] = []
  numbered n (d ∷ ds) = (key n, d) ∷ numbered (suc n) ds

  abbrev pub change : ℕ → (Stored D → Bool) → (D → D) → List D → List D
  change n q f [] = []
  change n q f (d ∷ ds) =
      let rest = change (suc n) q f ds in if q (key n, d) then f d ∷ ds else d ∷ rest

  numbered-change :
      (n : ℕ) (q : Stored D → Bool) (f : D → D) (ds : List D)
      → numbered n (change n q f ds) ≡ update_first q (set_fields f) (numbered n ds)
  numbered-change n q f [] = refl
  numbered-change n q f (d ∷ ds) = ground (arith, numbered-change (suc n) q f ds)

  fresh : (n m : ℕ) (ds : List D) → n < m → All (λ other. other.0 ≢ key n) (numbered m ds)
  fresh n m [] h = tt
  fresh n m (d ∷ ds) h =
      (λ e. ground (arith, ap ticks e, ticks-key n, ticks-key m), fresh n (suc m) ds (omega arith))

  -- The key after the last one.
  abbrev pub next : ℕ → List D → String
  next n [] = key n
  next n (d ∷ ds) = next (suc n) ds

  numbered-append :
      (n : ℕ) (d : D) (ds : List D)
      → numbered n (ds ++ (d ∷ [])) ≡ numbered n ds ++ ((next n ds, d) ∷ [])
  numbered-append n d [] = refl
  numbered-append n d (x ∷ ds) = ap (λ l. (key n, x) ∷ l) (numbered-append (suc n) d ds)

  pub inserted_or :
      (b : Bool) (d : D) (s s' : List D) (k : String)
      → ◌≡◌ {A = Result (String × List D)}
          (if b then err Error.duplicate_key else ok (next 0 s, s ++ (d ∷ [])))
          (ok (k, s'))
      → (b ≡ false) × (numbered 0 s' ≡ numbered 0 s ++ ((k, d) ∷ []))
  inserted_or true d s s' k h = absurd (cc h)
  inserted_or false d s s' k h =
      let e = ok_inj h in
      (
        refl,
        subst (λ r. numbered 0 r.1 ≡ numbered 0 s ++ ((r.0, d) ∷ [])) e (numbered-append 0 d s),
      )

  -- The collection: an insert fails if `clash` holds, and an update never does.
  abbrev pub memory : (D → List (Stored D) → Bool) → Collection D
  memory clash = record {
    Coll = List D;
    documents = numbered 0;
    find_one = λ q ds. first q (numbered 0 ds);
    find = λ q before limit ds. select q ds;
    insert_one = λ d ds.
        if clash d (numbered 0 ds) then err Error.duplicate_key else ok (next 0 ds, ds ++ (d ∷ []));
    update_one = λ q f ds. ok (if any q (numbered 0 ds) then 1 else 0, change 0 q f ds);
  }

  pub memory-laws : (clash : D → List (Stored D) → Bool) → CollectionLaws (memory clash)
  memory-laws clash = record {
    find_one_first = λ q s. refl;
    insert_one_appends = λ d s s' k h. (inserted_or (clash d (numbered 0 s)) d s s' k h).1;
    update_one_first = λ q f s s' n h. (
      ap (λ r. numbered 0 r) (sym (ap (λ r. r.1) (ok_inj h))) ∙ numbered-change 0 q f s,
      sym (ap (λ r. r.0) (ok_inj h)),
    );
  }

-- A replacement in memory, which never fails.
abbrev pub replacing : {D : Type 0} → (Stored D → Bool) → D → List D → Result (ℕ × List D)
replacing q d ds = ok (if any q (numbered 0 ds) then 1 else 0, change 0 q (λ _. d) ds)

pub replacing_laws :
    {D : Type 0} (clash : D → List (Stored D) → Bool) → ReplaceLaws (memory clash) replacing
replacing_laws clash = record {
  replace_one_first = λ q d s s' n h.
      ap (λ r. numbered 0 r) (sym (ap (λ r. r.1) (ok_inj h))) ∙ numbered-change 0 q (λ _. d) s;
}

pub unique_keys : (n : ℕ) (ds : List Document) → HasUniqueIds (numbered n ds)
unique_keys n [] = tt
unique_keys n (d ∷ ds) = (fresh n (suc n) ds (omega arith), unique_keys (suc n) ds)

-- Timestamps in memory: as many ticks as microseconds.
abbrev pub ticking : Iso
ticking = record { isoformat = key; fromisoformat = λ s. some (ticks s) }

ticks-replace_z : (t : ℕ) → ticks (replace_z (key t <> "Z")) ≡ t
unfolding key ticks replace_z
ticks-replace_z zero = refl
ticks-replace_z (suc t) =
    ap (λ s. ticks (replace_z s)) (text.Mathlib.TextLemmas.cons-append "k" (key t) "Z")
    ∙ ap suc (ticks-replace_z t)

-- The unique index on the current version of an instruction.
abbrev pub current_exists : Document → List (Stored Document) → Bool
current_exists d ds = is_none d.out && any (is_current d.instruction_id) ds

none-current :
    (id : String) (ds : List (Stored Document))
    → any (is_current id) ds ≡ false
    → first (is_current id) ds ≡ none
none-current id [] h = refl
none-current id (d ∷ ds) h = ground (arith, none-current id ds)

pub current_unique :
    (d : Document) (c c' : List Document) (k : String)
    → (memory current_exists).insert_one d c ≡ ok (k, c')
    → d.out ≡ none
    → first (is_current d.instruction_id) (numbered 0 c) ≡ none
current_unique d c c' k h o =
    none-current d.instruction_id (numbered 0 c)
      (rw o at (inserted_or (current_exists d (numbered 0 c)) d c c' k h).0)
