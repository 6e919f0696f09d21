-- ===== src/Instruction/Repository/History.antt =====
-- The version history of an instruction, as the documents of a collection hold it.
use security_event_rag_demo.Base.{
  ℕ, suc, ◌+◌, ◌≡◌, ◌≢◌, refl, ◌⊎◌, String, Bool, true, false, none, some, List, [], ◌∷◌, ◌++◌,
  arith, All, first, select, update_first, is_none, str_eq, eq_iff, ==_iff,
}
use security_event_rag_demo.Instruction.Storage.{Document}
use security_event_rag_demo.Instruction.Platform.{Stored}
use security_event_rag_demo.Instruction.Repository.{is_current, is_version}

abbrev pub Documents : Type 0
Documents = List (Stored Document)

-- The documents of one instruction, in the collection's order.
abbrev pub has_id : String → Stored Document → Bool
has_id id (_, d) = str_eq d.instruction_id id

abbrev pub history : String → Documents → Documents
history id = select (has_id id)

-- No two documents share an `_id`.
abbrev pub HasUniqueIds : Documents → Type 0
HasUniqueIds [] = Unit
HasUniqueIds (e ∷ ds) = All (λ other. other.0 ≢ e.0) ds × HasUniqueIds ds

abbrev pub is_open : Stored Document → Bool
is_open (_, d) = is_none d.out

-- Consecutive versions from `n` on, of which the last alone is open.
abbrev pub IsChain : ℕ → Documents → Type 0
IsChain n [] = ⊥
IsChain n ((_, d) ∷ []) = (d.version_number ≡ n) × (is_none d.out ≡ true)
IsChain n ((_, d) ∷ e ∷ ds) =
    (d.version_number ≡ n) × (is_none d.out ≡ false) × IsChain (suc n) (e ∷ ds)

-- Every instruction that has a document has the versions 1, 2, …, and one current version.
abbrev pub IsVersioned : Documents → Type 0
IsVersioned ds = (id : String) → (history id ds ≡ []) ⊎ IsChain 1 (history id ds)

-- Closing a version at a time.
abbrev pub closed : String → Document → Document
closed time d = record d { out = some time }

abbrev pub close_stored : String → Stored Document → Stored Document
close_stored time (k, d) = (k, closed time d)

-- `c'` is `c` with the current version of an instruction closed and the next one added.
pub record Appended (id : String) (new : Document) (c c' : Documents) : Type 0 where
  pub key : String
  pub previous : Document
  pub new_key : String
  pub time : String
  pub was_current : first (is_current id) c ≡ some (key, previous)
  pub same_id : new.instruction_id ≡ id
  pub next_version : new.version_number ≡ previous.version_number + 1
  pub is_now_current : new.out ≡ none
  pub result : c' ≡ update_first (is_current id) (close_stored time) c ++ ((new_key, new) ∷ [])

-- `c'` is `c` with the first version of a new instruction added.
pub record Started (id : String) (new : Document) (c c' : Documents) : Type 0 where
  pub new_key : String
  pub was_absent : first (is_current id) c ≡ none
  pub same_id : new.instruction_id ≡ id
  pub first_version : new.version_number ≡ 1
  pub is_now_current : new.out ≡ none
  pub result : c' ≡ c ++ ((new_key, new) ∷ [])

-- The first match of a query is a match, and `_id`s tell documents apart.
pub first-matches :
    (q : Stored Document → Bool) (c : Documents) (e : Stored Document)
    → first q c ≡ some e
    → q e ≡ true
first-matches q [] e h = cc
first-matches q (x ∷ c) e h = ground (arith, first-matches q c e)

first-fresh :
    (q : Stored Document → Bool) (c : Documents) (k : String) (e : Stored Document)
    → All (λ other. other.0 ≢ k) c
    → first q c ≡ some e
    → e.0 ≢ k
first-fresh q [] k e u h = cc
first-fresh q (x ∷ c) k e u h = ground (arith, first-fresh q c k e u.1)

-- The update by `_id`, version and openness hits the current version that was found.
pub update_version-eq_current :
    (id : String) (f : Stored Document → Stored Document) (c : Documents) (k : String)
    (d : Document)
    → HasUniqueIds c
    → first (is_current id) c ≡ some (k, d)
    → update_first (is_version k d.version_number) f c ≡ update_first (is_current id) f c
update_version-eq_current id f [] k d u h = cc
update_version-eq_current id f ((j, x) ∷ c) k d u h = ground (
  arith,
  update_version-eq_current id f c k d u.1,
  first-fresh (is_current id) c j (k, d) u.0,
  eq_iff j k,
  ==_iff x.version_number d.version_number,
)

-- The current version of the collection is the open one of its history.
pub first-history :
    (id : String) (c : Documents) → first (is_current id) c ≡ first is_open (history id c)
first-history id [] = refl
first-history id (x ∷ c) = ground (arith, first-history id c)

pub history-close :
    (id : String) (time : String) (c : Documents)
    → history id (update_first (is_current id) (close_stored time) c)
      ≡ update_first is_open (close_stored time) (history id c)
history-close id time [] = refl
history-close id time (x ∷ c) = ground (arith, history-close id time c)

pub history-close_ne :
    (id other : String) (time : String) (c : Documents)
    → other ≢ id
    → history other (update_first (is_current id) (close_stored time) c) ≡ history other c
history-close_ne id other time [] ne = refl
history-close_ne id other time ((k, d) ∷ c) ne = ground (
  arith,
  history-close_ne id other time c ne,
  eq_iff d.instruction_id id,
  eq_iff d.instruction_id other,
)

-- Closing the last version of a chain and adding the next one is a chain.
pub IsChain-append :
    (n : ℕ) (time : String) (h : Documents) (k : String) (previous : Document) (e : Stored Document)
    → IsChain n h
    → first is_open h ≡ some (k, previous)
    → e.1.version_number ≡ previous.version_number + 1
    → is_none e.1.out ≡ true
    → IsChain n (update_first is_open (close_stored time) h ++ (e ∷ []))
IsChain-append n time [] k previous e c f v o = absurd c
IsChain-append n time (x ∷ []) k previous e c f v o = ground arith
IsChain-append n time (x ∷ y ∷ h) k previous e c f v o =
    ground (arith, IsChain-append (suc n) time (y ∷ h) k previous e c.2)

-- A chain has an open version.
pub IsChain-open : (n : ℕ) (h : Documents) → IsChain n h → first is_open h ≢ none
IsChain-open n [] c = absurd c
IsChain-open n (x ∷ []) c = ground arith
IsChain-open n (x ∷ y ∷ h) c = ground (arith, IsChain-open (suc n) (y ∷ h) c.2)
