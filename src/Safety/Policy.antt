-- ===== src/Safety/Policy.antt =====
-- `SafetyPolicy::authorize` of safety/safety_policy.cpp, by what it asks for.
use drive_lab.Prelude.{◌≡◌, ◌≢◌, ◌↔◌, inl, inr, true, false, Text, arith}
use drive_lab.Result.{ok, Result-cases}
use drive_lab.Drive.{Drive, DriveIdentity, DriveStatus, drive_id, lock_key, is_protected}
use drive_lab.Drive.Identity.{HasStableIdentity, drive_id-ok_iff}
use drive_lab.Operation.{SafetyClass, status_only}
use drive_lab.Mode.{ExecutionMode, real, demo, dry_run}
use drive_lab.Safety.{ExecutionAuthorization, authorize, by_status, erases}

-- What each mode grants to an operation that the drive allows.
abbrev pub grant : ExecutionMode → ExecutionAuthorization
grant real = record { may_execute = true; simulated = false; planned_only = false }
grant demo = record { may_execute = true; simulated = true; planned_only = false }
grant dry_run = record { may_execute = false; simulated = false; planned_only = true }

-- The conditions under which an operation of class `c` may be carried out on a drive.
pub record Permits (d : Drive) (c : SafetyClass) (m : ExecutionMode) : Type 0 where
  pub identified : HasStableIdentity d.identity
  pub unprotected : c ≢ status_only → is_protected d ≡ false
  pub status_known : c ≢ status_only → d.status ≢ DriveStatus.unknown
  pub harmless : m ≡ real → erases c ≡ false

lock_key-ok_iff : (i : DriveIdentity) → ((k : Text) × (lock_key i ≡ ok k)) ↔ HasStableIdentity i
unfolding lock_key
lock_key-ok_iff i = elim (Result-cases (drive_id i)) [
  | inl (id, e) ↦ (λ _. (drive_id-ok_iff i).0 (id, e), λ _. (id.value, rw e))
  | inr (f, e) ↦ (λ (k, p). cc (rw e at p), λ h. let (id, q) = (drive_id-ok_iff i).1 h in cc)
]

by_status_iff :
    (d : Drive) (c : SafetyClass) (m : ExecutionMode) (a : ExecutionAuthorization)
    → (by_status d c m ≡ ok a) ↔ (
        (c ≢ status_only → is_protected d ≡ false)
        × (c ≢ status_only → d.status ≢ DriveStatus.unknown)
        × (m ≡ real → erases c ≡ false)
        × (a ≡ grant m))
unfolding by_status
by_status_iff d c m a = (λ e. ground arith, λ h. ground arith)

-- Authorization succeeds exactly when the drive has an identity, the drive is neither protected
-- nor of unknown status unless the operation only reads status, and nothing is erased in real
-- mode; what is granted then depends on the mode alone.
pub authorize_iff :
    (d : Drive) (c : SafetyClass) (m : ExecutionMode) (a : ExecutionAuthorization)
    → (authorize d c m ≡ ok a) ↔ (Permits d c m × (a ≡ grant m))
unfolding authorize
authorize_iff d c m a = elim (Result-cases (lock_key d.identity)) [
  | inl (k, e) ↦ (
    λ p.
        let q = (by_status_iff d c m a).0 (rw (e, authorize) at p) in
        (
          record {
            identified = (lock_key-ok_iff d.identity).0 (k, e);
            unprotected = q.0;
            status_known = q.1;
            harmless = q.2;
          },
          q.3,
        ),
    λ (h, g).
        rw (e, authorize)
          ((by_status_iff d c m a).1 (h.unprotected, h.status_known, h.harmless, g)),
  )
  | inr (f, e) ↦ (
    λ p. cc (rw (e, authorize) at p),
    λ (h, g). let (k, q) = (lock_key-ok_iff d.identity).1 h.identified in cc,
  )
]
