-- ===== src/Instruction/Service/Changes.antt =====
-- What each operation of the service (service.py) makes of the instruction that it saves.
use security_event_rag_demo.Base.{
  ℕ, String, ◌+◌, Option, none, some, truthy, or_empty, if◌then◌else◌,
}
use security_event_rag_demo.Base.Json.{Fields, field, end, str}
use security_event_rag_demo.Instruction.Enums.{InstructionStatus, InstructionType}
use security_event_rag_demo.Instruction.Subject.{Subject, DeleteInstructionRequest, user_reference}
use security_event_rag_demo.Instruction.Model.{CashSettlementInstruction}

-- The status of an approved or reactivated instruction, by its type.
abbrev pub active_status : InstructionType → InstructionStatus
active_status InstructionType.standing = InstructionStatus.standing
active_status InstructionType.single_use = InstructionStatus.single_use

-- The status after a use.
abbrev pub status_after_use : InstructionType → InstructionStatus → InstructionStatus
status_after_use InstructionType.single_use status = InstructionStatus.used
status_after_use InstructionType.standing status = status

-- `{"reason": request.reason} if request and request.reason else {}`
abbrev pub delete_details : Option DeleteInstructionRequest → Fields
delete_details none = end
delete_details (some r) =
    if truthy r.reason then field "reason" (str (or_empty r.reason)) end else end

-- The instruction that each operation saves.
abbrev pub deleted : CashSettlementInstruction → CashSettlementInstruction
deleted i = record i { status = InstructionStatus.deleted }

abbrev pub submitted : ℕ → CashSettlementInstruction → CashSettlementInstruction
submitted now i = record i { status = InstructionStatus.pending; submitted_at = some now }

abbrev pub approved : Subject → ℕ → CashSettlementInstruction → CashSettlementInstruction
approved subject now i = record i {
  status = active_status i.instruction_type;
  approved_by = some (user_reference subject);
  approved_at = some now;
}

abbrev pub rejected : Subject → String → ℕ → CashSettlementInstruction → CashSettlementInstruction
rejected subject reason now i = record i {
  status = InstructionStatus.rejected;
  rejected_by = some (user_reference subject);
  rejected_at = some now;
  rejection_reason = some reason;
}

abbrev pub suspended : Subject → ℕ → CashSettlementInstruction → CashSettlementInstruction
suspended subject now i = record i {
  status = InstructionStatus.suspended;
  suspended_by = some subject.user_id;
  suspended_at = some now;
}

abbrev pub reactivated : CashSettlementInstruction → CashSettlementInstruction
reactivated i = record i {
  status = active_status i.instruction_type;
  suspended_by = none;
  suspended_at = none;
}

-- A use is counted first; the status follows when it is authorized.
abbrev pub counted : ℕ → CashSettlementInstruction → CashSettlementInstruction
counted now i = record i { usage_count = i.usage_count + 1; last_used_at = some now }

abbrev pub used : CashSettlementInstruction → CashSettlementInstruction
used i = record i { status = status_after_use i.instruction_type i.status }
