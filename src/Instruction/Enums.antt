-- ===== src/Instruction/Enums.antt =====
-- The enumerations of the instruction service (instruction-service/src/inst/models/enums.py), each
-- with its text value.
use mathlib.Core.Bool.{Bool, true, false}
use Prim.Native.String.{String}

pub data InstructionType : Type 0 where
  standing single_use : InstructionType

pub data InstructionStatus : Type 0 where
  draft pending standing single_use suspended rejected used expired deleted : InstructionStatus

pub data WireScope : Type 0 where
  domestic international : WireScope

pub data ChargeBearer : Type 0 where
  debt cred shar slev : ChargeBearer

pub data AccountIdentificationScheme : Type 0 where
  iban bban proprietary : AccountIdentificationScheme

pub data FinancialInstitutionIdScheme : Type 0 where
  bicfi clearing_system proprietary : FinancialInstitutionIdScheme

pub data LifecycleAction : Type 0 where
  create update delete submit approve reject suspend reactivate use_ view : LifecycleAction

pub data SecurityEventSeverity : Type 0 where
  info alert : SecurityEventSeverity

pub data SecurityEventOutcome : Type 0 where
  success failure : SecurityEventOutcome

abbrev pub type_value : InstructionType → String
type_value InstructionType.standing = "STANDING"
type_value InstructionType.single_use = "SINGLE_USE"

abbrev pub status_value : InstructionStatus → String
status_value InstructionStatus.draft = "DRAFT"
status_value InstructionStatus.pending = "PENDING"
status_value InstructionStatus.standing = "STANDING"
status_value InstructionStatus.single_use = "SINGLE_USE"
status_value InstructionStatus.suspended = "SUSPENDED"
status_value InstructionStatus.rejected = "REJECTED"
status_value InstructionStatus.used = "USED"
status_value InstructionStatus.expired = "EXPIRED"
status_value InstructionStatus.deleted = "DELETED"

abbrev pub wire_scope_value : WireScope → String
wire_scope_value WireScope.domestic = "DOMESTIC"
wire_scope_value WireScope.international = "INTERNATIONAL"

abbrev pub charge_bearer_value : ChargeBearer → String
charge_bearer_value ChargeBearer.debt = "DEBT"
charge_bearer_value ChargeBearer.cred = "CRED"
charge_bearer_value ChargeBearer.shar = "SHAR"
charge_bearer_value ChargeBearer.slev = "SLEV"

abbrev pub action_value : LifecycleAction → String
action_value LifecycleAction.create = "CREATE"
action_value LifecycleAction.update = "UPDATE"
action_value LifecycleAction.delete = "DELETE"
action_value LifecycleAction.submit = "SUBMIT"
action_value LifecycleAction.approve = "APPROVE"
action_value LifecycleAction.reject = "REJECT"
action_value LifecycleAction.suspend = "SUSPEND"
action_value LifecycleAction.reactivate = "REACTIVATE"
action_value LifecycleAction.use_ = "USE"
action_value LifecycleAction.view = "VIEW"

-- `status == InstructionStatus.DRAFT` and the like.
abbrev pub is_draft : InstructionStatus → Bool
is_draft InstructionStatus.draft = true
is_draft _ = false

abbrev pub is_pending : InstructionStatus → Bool
is_pending InstructionStatus.pending = true
is_pending _ = false

abbrev pub is_suspended : InstructionStatus → Bool
is_suspended InstructionStatus.suspended = true
is_suspended _ = false

abbrev pub is_deleted : InstructionStatus → Bool
is_deleted InstructionStatus.deleted = true
is_deleted _ = false

-- `status in {DRAFT, PENDING}` and `status in {STANDING, SINGLE_USE}`.
abbrev pub is_draft_or_pending : InstructionStatus → Bool
is_draft_or_pending InstructionStatus.draft = true
is_draft_or_pending InstructionStatus.pending = true
is_draft_or_pending _ = false

abbrev pub is_active : InstructionStatus → Bool
is_active InstructionStatus.standing = true
is_active InstructionStatus.single_use = true
is_active _ = false
