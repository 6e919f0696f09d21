-- ===== src/Payment/Service/Approvals.antt =====
-- What an approval that is requested does to the stored payments (service.py: approve, _cancel).
use mathlib.Core.Path.{subst}
use security_event_rag_demo.Base.{
  ℕ, String, ◌≡◌, refl, sym, ◌∙◌, ◌⊎◌, inl, inr, false, not, Option, none, some, if◌then◌else◌,
}
use security_event_rag_demo.Base.Exec.{Error, Result, ok, err}
use security_event_rag_demo.Base.Exec.Frame.{ok_inj}
use security_event_rag_demo.Base.Exec.Run.{Run, Run-bind, Run-after, Run-weaken}
use security_event_rag_demo.Base.Json.{Fields}
use security_event_rag_demo.Instruction.Authorization.{details_with_authorization}
use security_event_rag_demo.Instruction.Service.Persist.{Caller}
use security_event_rag_demo.Payment.Enums.{PaymentAction, is_submitted_payment}
use security_event_rag_demo.Payment.Model.{PaymentSubject, Payment}
use security_event_rag_demo.Payment.Changes.{reason_details, approved_payment, cancelled_payment}
use security_event_rag_demo.Payment.Platform.{PaymentPlatform, PaymentSettings, PaymentState}
use security_event_rag_demo.Payment.Validity.{check_instruction_validity}
use security_event_rag_demo.Payment.Validity.Reasons.{IsReason, check_instruction_validity-IsReason}
use security_event_rag_demo.Payment.Validity.Approvable.{
  IsApprovable, check_instruction_validity-none,
}
use security_event_rag_demo.Payment.Service.Operations.{
  fetch_instruction, found_or_none, cancel_payment, approve_valid, approve_or_cancel, approve_with,
  approve_payment, approve_payment_from,
}
use security_event_rag_demo.Payment.Service.Silent.{
  PaymentDocuments, payment_documents, current_time-Frame_lem, take_stamp-Frame_lem, if_found-Frame,
}
use security_event_rag_demo.Payment.Service.Allowed.{Fetched, ClockRead, current_time-Post}
use security_event_rag_demo.Payment.Service.Lifecycle.{
  approved_payment-Advanced, cancelled_payment-Advanced,
}
use security_event_rag_demo.Payment.Service.Stores.{PaymentLaws, Found, store_change-Run}
use security_event_rag_demo.Payment.Service.Moves.{
  Approval, Missing, Outdated, Cancellation, reading, guarding, permitted,
}

module _ (p : PaymentPlatform) (cfg : PaymentSettings) (laws : PaymentLaws p) (u : PaymentSubject)
    (k : Caller) (id : String) (c : PaymentDocuments) where
  -- A cancellation, for a cause.
  cancelled :
      (d : Payment) (reason : String)
      → Found id c d
      → not (is_submitted_payment d.status) ≡ false
      → Missing p cfg d.instruction_id k ⊎ Outdated p cfg d k
      → Run (payment_documents p) c (Cancellation p cfg u k id c) (cancel_payment p cfg u d reason)
  unfolding cancel_payment
  cancelled d reason found legal cause = Run-bind _ _ (take_stamp-Frame_lem p cfg) (λ t.
      let advanced = cancelled_payment-Advanced u t d reason legal in
      Run-weaken
        (λ c' r. record {
          change = record {
            before = d;
            after = cancelled_payment u reason t d;
            replaced = r;
            advanced = advanced;
          };
          cause = cause;
        })
        (store_change-Run p laws cfg PaymentAction.cancel_payment u (reason_details reason) id c d
          (cancelled_payment u reason t d) found advanced))

  -- What an approval that was requested comes to.
  abbrev pub Decided : PaymentDocuments → Type 0
  Decided c' = Approval p cfg u k id c c' ⊎ Cancellation p cfg u k id c c'

  approving :
      (d : Payment) (i : Fields) (now : ℕ)
      → Found id c d
      → Fetched p cfg d.instruction_id k i
      → ClockRead p cfg now
      → not (is_submitted_payment d.status) ≡ false
      → IsApprovable p now d i
      → Run (payment_documents p) c Decided (approve_valid p cfg u k i d)
  unfolding approve_valid
  approving d i now found fetched clock legal approvable =
      Run-weaken
        (λ c' w. inl (record {
          permitted = w.0;
          time = now;
          clock = clock;
          approvable =
              subst (λ x. IsApprovable p now x w.0.instruction) (sym w.2)
                (subst (λ x. IsApprovable p now d x) (sym w.1) approvable);
        }))
        (permitted p cfg laws u k id c PaymentAction.approve_payment d i
          (λ b. details_with_authorization none b) (λ t. approved_payment u t d) found fetched
          (λ t. approved_payment-Advanced u t d legal))

  -- A reason is a text that is not empty, and there is one exactly if the instruction is not
  -- approvable.
  by_reason :
      (d : Payment) (i : Fields) (now : ℕ) (reason : Option String)
      → Found id c d
      → Fetched p cfg d.instruction_id k i
      → ClockRead p cfg now
      → not (is_submitted_payment d.status) ≡ false
      → check_instruction_validity p now d i ≡ reason
      → IsReason p reason
      → Run (payment_documents p) c Decided (approve_or_cancel p cfg u k i d reason)
  by_reason d i now none found fetched clock legal checked is_reason =
      approving d i now found fetched clock legal
        ((check_instruction_validity-none p now d i).0 checked)
  by_reason d i now (some r) found fetched clock legal checked is_reason =
      subst
        (λ b.
          Run (payment_documents p) c Decided
            (if b then cancel_payment p cfg u d r else approve_valid p cfg u k i d))
        (sym is_reason)
        (Run-weaken (λ c' w. inr w)
          (cancelled d r found legal (
            inr (record {
              instruction = i;
              fetched = fetched;
              time = now;
              clock = clock;
              not_approvable = λ w.
                  some_is_not_none (sym checked ∙ (check_instruction_validity-none p now d i).1 w);
            }))))
    where
      some_is_not_none : {s : String} → ◌≡◌ {A = Option String} (some s) none → ⊥
      some_is_not_none e = cc e

  -- What `except InstructionNotFoundError` tells.
  abbrev Known : Payment → Option Fields → Type 0
  Known d none = Missing p cfg d.instruction_id k
  Known d (some i) = Fetched p cfg d.instruction_id k i

  Known-answer :
      (d : Payment) (s : PaymentState p) (r : Result Fields) (o : Option Fields)
      → (fetch_instruction p cfg d.instruction_id k s).0 ≡ r
      → found_or_none r ≡ ok o
      → Known d o
  Known-answer d s (ok i) o e h = subst (Known d) (ok_inj h) (record { read_in = s; answer = e })
  Known-answer d s (err (Error.instruction_not_found m)) o e h =
      subst (Known d) (ok_inj h) (record { read_in = s; message = m; answer = e })
  Known-answer d s (err x) o e h = absurd (cc h)

  approve_with-Run :
      (d : Payment) (o : Option Fields)
      → Found id c d
      → not (is_submitted_payment d.status) ≡ false
      → Known d o
      → Run (payment_documents p) c Decided (approve_with p cfg u k d o)
  approve_with-Run d none found legal missing =
      Run-weaken (λ c' w. inr w) (cancelled d _ found legal (inl missing))
  approve_with-Run d (some i) found legal fetched =
      Run-after (ClockRead p cfg) _ _ (current_time-Frame_lem p) (current_time-Post p cfg)
        (λ now clock.
          by_reason d i now (check_instruction_validity p now d i) found fetched clock legal refl
            (check_instruction_validity-IsReason p now d i))

  pub approve_payment-Run : Run (payment_documents p) c Decided (approve_payment p cfg id u k)
  unfolding approve_payment approve_payment_from
  approve_payment-Run = reading p cfg laws u k id c _ (λ d found.
      guarding p cfg laws u k id c _ _ _ (λ legal _.
        Run-after (Known d) _ _ (if_found-Frame p cfg d k)
          (record {
            at = λ s h o e.
                Known-answer d s (fetch_instruction p cfg d.instruction_id k s).0 o refl e;
          })
          (λ o known. approve_with-Run d o found legal known)))
