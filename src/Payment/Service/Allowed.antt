-- ===== src/Payment/Service/Allowed.antt =====
-- What the results of the payment service's calls rest on: the policy's permission, the instruction
-- that was read, and the mark on it.
use security_event_rag_demo.Base.{
  ℕ, String, ◌≡◌, refl, sym, Bool, true, false, str_eq, if◌then◌else◌,
}
use security_event_rag_demo.Base.Exec.{Error, Result, ok, err, pure, continue, catch}
use security_event_rag_demo.Base.Exec.Frame.{ok_inj}
use security_event_rag_demo.Base.Exec.Post.{Post, Raises, Raises-after, Post-handled}
use security_event_rag_demo.Base.Json.{Fields}
use security_event_rag_demo.Clients.Authz.{PolicyDecision}
use security_event_rag_demo.Instruction.Authorization.{AuthorizationBlock}
use security_event_rag_demo.Instruction.Service.Persist.{Caller}
use security_event_rag_demo.Payment.Enums.{PaymentAction}
use security_event_rag_demo.Payment.Model.{PaymentSubject, Payment}
use security_event_rag_demo.Payment.Authorization.{build_payment_block, payment_resource_context}
use security_event_rag_demo.Payment.Platform.{
  PaymentPlatform, PaymentSettings, PaymentState, current_time,
}
use security_event_rag_demo.Payment.IlmClient.{mark_used}
use security_event_rag_demo.Payment.Service.Record.{
  Backing, evaluate_payment_policy, deny_payment, authorize_payment,
}
use security_event_rag_demo.Payment.Service.Operations.{
  fetch_instruction, saga_failed, mark_instruction, mark_if_single_use,
}

module _ (p : PaymentPlatform) (cfg : PaymentSettings) where
  -- The policy was asked about an action of a caller on a payment, and allowed it; `block` is the
  -- record of its decision.
  pub record PaymentGranted (a : PaymentAction) (u : PaymentSubject) (k : Caller) (d : Payment)
      (backing : Backing) : Type 0 where
    pub asked_in : PaymentState p
    pub decision : PolicyDecision
    pub decided : (evaluate_payment_policy p cfg a u d backing k asked_in.session).0 ≡ ok decision
    pub allowed : decision.allowed ≡ true
    pub block : AuthorizationBlock
    pub block_of_decision :
        block
        ≡ build_payment_block decision u a
            (payment_resource_context d backing.status backing.end_date)

  -- The service's clock showed a time when it was read.
  pub record ClockRead (time : ℕ) : Type 0 where
    pub clock_in : PaymentState p
    pub shown : (current_time p clock_in).0 ≡ ok time

  pub current_time-Post :
      {P : PaymentState p → Type 0} → Post P (λ now _. ClockRead now) (current_time p)
  current_time-Post = record { at = λ s h now e. record { clock_in = s; shown = e } }

  -- The instruction service answered with an instruction.
  pub record Fetched (id : String) (k : Caller) (instruction : Fields) : Type 0 where
    pub read_in : PaymentState p
    pub answer : (fetch_instruction p cfg id k read_in).0 ≡ ok instruction

  -- The instruction service marked the instruction of a payment as used.
  pub record Marked (d : Payment) (k : Caller) : Type 0 where
    pub marked_in : PaymentState p
    pub answer : Fields
    pub accepted :
        (mark_used p cfg d.instruction_id d.payment_id k.bearer_token k.session_id
          marked_in.session).0
        ≡ ok answer

  deny_payment-Raises :
      (a : PaymentAction) (u : PaymentSubject) (d : Payment) (b : AuthorizationBlock)
      → Raises (deny_payment p cfg a u d b)
  unfolding deny_payment
  deny_payment-Raises a u d b = Raises-after _ _

  decided_branch :
      (a : PaymentAction) (u : PaymentSubject) (d : Payment) (answer b : AuthorizationBlock)
      (t : PaymentState p) (allowed : Bool)
      → ((if allowed then pure answer else deny_payment p cfg a u d answer) t).0 ≡ ok b
      → (allowed ≡ true) × (b ≡ answer)
  decided_branch a u d answer b t true h = (refl, sym (ok_inj h))
  decided_branch a u d answer b t false h = absurd ((deny_payment-Raises a u d answer).never t b h)

  granted_by :
      (a : PaymentAction) (u : PaymentSubject) (d : Payment) (g : Backing) (k : Caller)
      (s : PaymentState p) (b : AuthorizationBlock) (r : Result PolicyDecision) (t : PaymentState p)
      → (evaluate_payment_policy p cfg a u d g k s.session).0 ≡ r
      → (continue r
          (λ decision.
            let authorization =
              build_payment_block decision u a (payment_resource_context d g.status g.end_date) in
            if decision.allowed then pure authorization else deny_payment p cfg a u d authorization)
          t).0
        ≡ ok b
      → PaymentGranted a u k d g
  granted_by a u d g k s b (err e) t decided h = absurd (cc h)
  granted_by a u d g k s b (ok decision) t decided h =
      let answer =
        build_payment_block decision u a (payment_resource_context d g.status g.end_date) in
      let both = decided_branch a u d answer b t decision.allowed h in
      record {
        asked_in = s;
        decision = decision;
        decided = decided;
        allowed = both.0;
        block = b;
        block_of_decision = both.1;
      }

  pub authorize_payment-Post :
      {P : PaymentState p → Type 0} (a : PaymentAction) (u : PaymentSubject) (d : Payment)
      (g : Backing) (k : Caller)
      → Post P (λ b _. PaymentGranted a u k d g) (authorize_payment p cfg a u d g k)
  unfolding authorize_payment
  authorize_payment-Post a u d g k = record {
    at = λ s h b e.
        granted_by a u d g k s b (evaluate_payment_policy p cfg a u d g k s.session).0
          (record s { session = (evaluate_payment_policy p cfg a u d g k s.session).1 }) refl e;
  }

  pub fetch_instruction-Post :
      {P : PaymentState p → Type 0} (id : String) (k : Caller)
      → Post P (λ i _. Fetched id k i) (fetch_instruction p cfg id k)
  fetch_instruction-Post id k = record { at = λ s h i e. record { read_in = s; answer = e } }

  saga_failed-Raises :
      (u : PaymentSubject) (d : Payment) (e : Error) → Raises (saga_failed p cfg u d e)
  unfolding saga_failed
  saga_failed-Raises u d (Error.instruction_state m) = Raises-after _ _
  saga_failed-Raises u d _ = Raises-after _ _

  accepted_answer :
      (d : Payment) (k : Caller) (s t : PaymentState p) (r : Result Fields) (x : Unit {0})
      → (mark_used p cfg d.instruction_id d.payment_id k.bearer_token k.session_id s.session).0 ≡ r
      → ◌≡◌ {A = Result (Unit {0})} (continue r (λ _. pure tt) t).0 (ok x)
      → Marked d k
  accepted_answer d k s t (ok i) x e h = record { marked_in = s; answer = i; accepted = e }
  accepted_answer d k s t (err y) x e h = absurd (cc h)

  mark_instruction-Post :
      {P : PaymentState p → Type 0} (d : Payment) (k : Caller)
      → Post P (λ _ _. Marked d k) (mark_instruction p cfg d k)
  mark_instruction-Post d k = record { at = λ s h x e. accepted_answer d k s _ _ x refl e }

  -- If the saga step returns for a single-use instruction, the instruction was marked.
  Marked-saga :
      {P : PaymentState p → Type 0} (single : Bool) (u : PaymentSubject) (d : Payment) (k : Caller)
      → Post P
          (λ _ _. single ≡ true → Marked d k)
          (if single then catch (mark_instruction p cfg d k) (saga_failed p cfg u d) else pure tt)
  Marked-saga {P} true u d k =
      Post-handled (mark_instruction p cfg d k) (saga_failed p cfg u d)
        (record { at = λ s h x e y. (mark_instruction-Post {P = P} d k).at s h x e })
        (saga_failed-Raises u d)
  Marked-saga false u d k = record { at = λ s h x e y. absurd (cc y) }

  pub mark_if_single_use-Post :
      {P : PaymentState p → Type 0} (status : String) (u : PaymentSubject) (d : Payment)
      (k : Caller)
      → Post P
          (λ _ _. str_eq status "SINGLE_USE" ≡ true → Marked d k)
          (mark_if_single_use p cfg status u d k)
  unfolding mark_if_single_use
  mark_if_single_use-Post status u d k = Marked-saga (str_eq status "SINGLE_USE") u d k
