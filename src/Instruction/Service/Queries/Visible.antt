-- ===== src/Instruction/Service/Queries/Visible.antt =====
-- What `list` shows.
use security_event_rag_demo.Base.{
  String, ◌≡◌, refl, Bool, true, false, not, ◌&&◌, Option, none, some, List, [], ◌∷◌, if◌then◌else◌,
}
use security_event_rag_demo.Base.Exec.{Error, Result, ok, err, ◌>>=◌}
use security_event_rag_demo.Base.Exec.Post.{Post, Post-bind, Post-return, Post-weaken}
use security_event_rag_demo.Instruction.Enums.{LifecycleAction, is_deleted}
use security_event_rag_demo.Instruction.Authorization.{AuthorizationBlock}
use security_event_rag_demo.Instruction.Subject.{Subject}
use security_event_rag_demo.Instruction.Storage.{VersionedInstruction}
use security_event_rag_demo.Instruction.Platform.{Platform, Settings, State, Action}
use security_event_rag_demo.Instruction.Service.Response.{InstructionResponse, to_response}
use security_event_rag_demo.Instruction.Service.Persist.{Caller, authorize}
use security_event_rag_demo.Instruction.Service.Persist.Allowed.{Permission, authorize-permitted}
use security_event_rag_demo.Instruction.Service.Queries.{
  skip_denied, visible, if_permitted, add_visible, record_view,
}

module _ (p : Platform) (cfg : Settings) (include_deleted : Bool) (u : Subject) (k : Caller) where
  -- `list` was told by the policy that the caller may see an instruction.
  pub record Permits (v : VersionedInstruction) : Type 0 where
    pub asked_in : State p
    pub block : AuthorizationBlock
    pub permission : Permission p cfg LifecycleAction.view u v.instruction k asked_in block

  -- The authorization of an instruction ended in a `PermissionError`.
  pub record Denies (v : VersionedInstruction) : Type 0 where
    pub asked_in : State p
    pub message : String
    pub refused :
        (authorize p cfg LifecycleAction.view u v.instruction k true none asked_in).0
        ≡ err (Error.permission_error message)

  abbrev pub hides : VersionedInstruction → Bool
  hides v = not include_deleted && is_deleted v.instruction.status

  -- What `list` does with each record, in the order of the records.
  pub data Listing : List VersionedInstruction → List InstructionResponse → Type 0 where
    done : Listing [] []
    shown :
        {v : VersionedInstruction} {vs : List VersionedInstruction} {rs : List InstructionResponse}
        → hides v ≡ false
        → Permits v
        → Listing vs rs
        → Listing (v ∷ vs) (to_response p.iso v ∷ rs)
    denied :
        {v : VersionedInstruction} {vs : List VersionedInstruction} {rs : List InstructionResponse}
        → hides v ≡ false
        → Denies v
        → Listing vs rs
        → Listing (v ∷ vs) rs
    hidden :
        {v : VersionedInstruction} {vs : List VersionedInstruction} {rs : List InstructionResponse}
        → hides v ≡ true
        → Listing vs rs
        → Listing (v ∷ vs) rs

  abbrev Anything : State p → Type 0
  Anything s = Unit

  -- The answer to a record: a block, or nothing after a `PermissionError`.
  Answered : VersionedInstruction → Option AuthorizationBlock → Type 0
  Answered v none = Denies v
  Answered v (some b) = Permits v

  if_permitted-Post :
      (v : VersionedInstruction) → Post Anything (λ b _. Answered v b) (if_permitted p cfg u k v)
  unfolding Answered
  if_permitted-Post v = record { at = λ s w b h. by_result s (call s).0 (call s).1 b refl h }
    where
      call : State p → Result AuthorizationBlock × State p
      call s = authorize p cfg LifecycleAction.view u v.instruction k true none s

      by_result :
          (s : State p) (r : Result AuthorizationBlock) (t : State p)
          (b : Option AuthorizationBlock)
          → (call s).0 ≡ r
          → (skip_denied p cfg (r, t)).0 ≡ ok b
          → Answered v b
      by_result s (ok a) t none e h = absurd (cc h)
      by_result s (ok a) t (some b) e h = record {
        asked_in = s;
        block = a;
        permission =
            authorize-permitted p cfg LifecycleAction.view u v.instruction k true none s a e;
      }
      by_result s (err (Error.permission_error m)) t none e h = record {
        asked_in = s;
        message = m;
        refused = e;
      }
      by_result s (err (Error.permission_error m)) t (some b) e h = absurd (cc h)
      by_result s (err x) t b e h = absurd (cc h)

  add-Listing :
      (v : VersionedInstruction) (vs : List VersionedInstruction)
      (rest : Action p (List InstructionResponse)) (b : Option AuthorizationBlock)
      → hides v ≡ false
      → Answered v b
      → Post Anything (λ rs _. Listing vs rs) rest
      → Post Anything (λ rs _. Listing (v ∷ vs) rs) (add_visible p cfg u v rest b)
  unfolding Answered
  add-Listing v vs rest none h a post = Post-weaken post (λ rs s w. Listing.denied h a w)
  add-Listing v vs rest (some b) h a post =
      Post-bind (λ _ s. Anything s) (record_view p cfg u v b) _ (record { at = λ s h a e. tt })
        (λ _.
          Post-bind (λ rs _. Listing vs rs) rest _ post
            (λ rs. Post-return (to_response p.iso v ∷ rs) (λ s w. Listing.shown h a w)))

  step :
      (b : Bool) (v : VersionedInstruction) (vs : List VersionedInstruction)
      (rest : Action p (List InstructionResponse))
      → hides v ≡ b
      → Post Anything (λ rs _. Listing vs rs) rest
      → Post Anything
          (λ rs _. Listing (v ∷ vs) rs)
          (if b then rest else if_permitted p cfg u k v >>= add_visible p cfg u v rest)
  step true v vs rest h post = Post-weaken post (λ rs s w. Listing.hidden h w)
  step false v vs rest h post =
      Post-bind (λ b _. Answered v b) (if_permitted p cfg u k v) (add_visible p cfg u v rest)
        (if_permitted-Post v)
        (λ b. record { at = λ s a rs e. (add-Listing v vs rest b h a post).at s tt rs e })

  visible-Post :
      (vs : List VersionedInstruction)
      → Post Anything (λ rs _. Listing vs rs) (visible p cfg include_deleted u k vs)
  unfolding visible
  visible-Post [] = Post-return [] (λ s h. Listing.done)
  visible-Post (v ∷ vs) = step (hides v) v vs _ refl (visible-Post vs)

  -- If the loop of `list` returns, its answer has, in the order of the records, the response of each
  -- record that is not hidden as deleted and that the policy allowed the caller to view. The other
  -- records are hidden, or their authorization ended in a `PermissionError`.
  pub visible-Listing :
      (vs : List VersionedInstruction) (s : State p) (rs : List InstructionResponse)
      → (visible p cfg include_deleted u k vs s).0 ≡ ok rs
      → Listing vs rs
  visible-Listing vs s rs h = (visible-Post vs).at s tt rs h
