-- ===== src/Instruction/Service/Guards.antt =====
-- The guards of the operations, and the statuses that they let through.
use security_event_rag_demo.Base.{◌≡◌, true, false, not, arith}
use security_event_rag_demo.Instruction.Enums.{
  LifecycleAction, InstructionStatus, InstructionType, is_draft, is_pending, is_suspended,
  is_active, is_draft_or_pending,
}
use security_event_rag_demo.Instruction.Service.Lifecycle.{Transition}
use security_event_rag_demo.Instruction.Service.Changes.{active_status, status_after_use}

-- The guards let through the statuses from which the action is allowed.
pub submit_legal :
    {t : InstructionType} (s : InstructionStatus)
    → not (is_draft s) ≡ false
    → Transition LifecycleAction.submit t s InstructionStatus.pending
submit_legal InstructionStatus.draft e = Transition.submitting
submit_legal _ e = absurd (cc e)

pub update_legal :
    {t : InstructionType} (s : InstructionStatus)
    → not (is_draft s) ≡ false
    → Transition LifecycleAction.update t s s
update_legal InstructionStatus.draft e = Transition.updating
update_legal _ e = absurd (cc e)

pub delete_legal :
    {t : InstructionType} (s : InstructionStatus)
    → not (is_draft_or_pending s) ≡ false
    → Transition LifecycleAction.delete t s InstructionStatus.deleted
delete_legal InstructionStatus.draft e = Transition.deleting_draft
delete_legal InstructionStatus.pending e = Transition.deleting_pending
delete_legal _ e = absurd (cc e)

pub approve_legal :
    (t : InstructionType) (s : InstructionStatus)
    → not (is_pending s) ≡ false
    → Transition LifecycleAction.approve t s (active_status t)
approve_legal InstructionType.standing InstructionStatus.pending e = Transition.approving_standing
approve_legal InstructionType.single_use InstructionStatus.pending e =
    Transition.approving_single_use
approve_legal _ _ e = absurd (cc e)

pub reject_legal :
    {t : InstructionType} (s : InstructionStatus)
    → not (is_pending s) ≡ false
    → Transition LifecycleAction.reject t s InstructionStatus.rejected
reject_legal InstructionStatus.pending e = Transition.rejecting
reject_legal _ e = absurd (cc e)

pub suspend_legal :
    {t : InstructionType} (s : InstructionStatus)
    → not (is_active s) ≡ false
    → Transition LifecycleAction.suspend t s InstructionStatus.suspended
suspend_legal InstructionStatus.standing e = Transition.suspending_standing
suspend_legal InstructionStatus.single_use e = Transition.suspending_single_use
suspend_legal _ e = absurd (cc e)

pub reactivate_legal :
    (t : InstructionType) (s : InstructionStatus)
    → not (is_suspended s) ≡ false
    → Transition LifecycleAction.reactivate t s (active_status t)
reactivate_legal InstructionType.standing InstructionStatus.suspended e =
    Transition.reactivating_standing
reactivate_legal InstructionType.single_use InstructionStatus.suspended e =
    Transition.reactivating_single_use
reactivate_legal _ _ e = absurd (cc e)

pub use_legal :
    (t : InstructionType) (s : InstructionStatus)
    → not (is_active s) ≡ false
    → Transition LifecycleAction.use_ t s (status_after_use t s)
use_legal InstructionType.standing s e = Transition.using_standing (not_false s e)
  where
    not_false : (s : InstructionStatus) → not (is_active s) ≡ false → is_active s ≡ true
    not_false s e = ground arith
use_legal InstructionType.single_use s e = Transition.using_single_use (ground arith)
