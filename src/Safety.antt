-- ===== src/Safety.antt =====
-- safety/safety_policy.h and safety/safety_policy.cpp: who may run what on which drive.
pub mod Policy
use drive_lab.Prelude.{Bool, true, false, not, ◌&&◌, ◌||◌, Text, bytes, if◌then◌else◌}
use drive_lab.Result.{Result, ok, err, Error, safety_blocked, unavailable, ◌>>=◌}
use drive_lab.Drive.{Drive, DriveStatus, lock_key, is_protected}
use drive_lab.Operation.{SafetyClass, status_only, destructive, irreversible}
use drive_lab.Mode.{ExecutionMode, real, demo, dry_run}

pub record ExecutionAuthorization : Type 0 where
  pub may_execute : Bool
  pub simulated : Bool
  pub planned_only : Bool

abbrev pub is_status_only : SafetyClass → Bool
is_status_only status_only = true
is_status_only _ = false

abbrev pub is_unknown : DriveStatus → Bool
is_unknown DriveStatus.unknown = true
is_unknown _ = false

abbrev pub erases : SafetyClass → Bool
erases destructive = true
erases irreversible = true
erases _ = false

abbrev policy_error : Text → Error
policy_error message = record {
  code = safety_blocked;
  component = bytes "SafetyPolicy";
  message = message;
}

abbrev no_real_erase : Error
no_real_erase = record {
  code = unavailable;
  component = bytes "SafetyPolicy";
  message =
      bytes
        "Real destructive authorization is intentionally unavailable before the 0.3 safety engine";
}

by_mode : SafetyClass → ExecutionMode → Result ExecutionAuthorization
by_mode c dry_run = ok (record { may_execute = false; simulated = false; planned_only = true })
by_mode c demo = ok (record { may_execute = true; simulated = true; planned_only = false })
by_mode c real =
    if erases c
    then err no_real_erase
    else ok (record { may_execute = true; simulated = false; planned_only = false })

by_status : Drive → SafetyClass → ExecutionMode → Result ExecutionAuthorization
unfolding by_mode
by_status d c m =
    if is_protected d && not (is_status_only c)
    then err (policy_error (bytes "Protected drives expose status only"))
    else if is_unknown d.status && not (is_status_only c)
    then err (policy_error (bytes "Unknown drive ownership defaults to status-only access"))
    else by_mode c m

unfoldable pub authorize : Drive → SafetyClass → ExecutionMode → Result ExecutionAuthorization
unfolding by_status
authorize d c m = do _ ← lock_key d.identity; by_status d c m
