-- ===== src/Orchestrator/Systemd.antt =====
-- dix/orchestrator.go: the calls of systemd, whose answers are arguments. An error is `none`, and of
-- an operation `false`.
use dotidx.Prelude.{
  ℕ, suc, ◌≤◌, ◌≡◌, refl, ◌⊎◌, Bool, true, false, Option, none, some, String, str_eq, ltb, ◌==◌,
  if◌then◌else◌, arith,
}

pub record OrchestratorConfig : Type 0 where
  pub watch_interval : ℕ
  pub max_restarts : ℕ
  pub restart_backoff : ℕ
  pub operation_timeout : ℕ

-- `NewServiceManager`, given whether D-Bus can be reached; the settings it keeps. A `time.Duration` is
-- a number of nanoseconds.
unfoldable pub new_service_manager : Bool → OrchestratorConfig → Option OrchestratorConfig
new_service_manager connected config =
    if connected
    then some
        (if config.operation_timeout == 0 then record config { operation_timeout = 30 } else config)
    else none

-- The entry `ActiveState` of the properties of a unit: they cannot be read, it is absent or is not a
-- text.
pub data Properties : Type 0 where
  not_read absent not_text : Properties
  active_state : String → Properties

-- What becomes of a job: it is not accepted, or it has a number, and a result after a time or never.
-- A cancelled context is a result that never comes.
pub record Job : Type 0 where
  pub job_id : Option ℕ
  pub result : Option (ℕ × String)

-- A result at the time of the timeout itself is taken to be late.
unfoldable pub systemd_operation : ℕ → Job → Bool
systemd_operation timeout job = elim job.job_id [
  | none ↦ false
  | some id ↦ if id == 0 then true else elim job.result [
    | none ↦ false
    | some (after, result) ↦ if ltb after timeout then str_eq result "done" else false
  ]
]

-- The type assertion `.(string)` and the comparison.
unfoldable pub read_active : Properties → Option Bool
read_active not_read = none
read_active absent = none
read_active not_text = none
read_active (active_state state) = some (str_eq state "active")

-- `ctx_ended` is `ctx.Err() != nil` after the start, and `after` what the properties are then.
unfoldable pub check_and_ensure_service_active :
    ℕ → Properties → Job → Bool → Properties → Option Bool
unfolding systemd_operation read_active
check_and_ensure_service_active timeout before start ctx_ended after = elim (read_active before) [
  | none ↦ none
  | some true ↦ some true
  | some false ↦
      if systemd_operation timeout start
      then if ctx_ended then none else read_active after
      else none
]

late :
    (timeout job_id after : ℕ) (result : String)
    → timeout ≤ after
    → systemd_operation timeout
        (record { job_id = some (suc job_id); result = some (after, result) })
      ≡ false
unfolding systemd_operation
late timeout job_id after result slow = ground arith

-- A manager that is made without a timeout keeps one of 30 nanoseconds: with it, the check of a
-- service that is not active is an error when its start takes that time or more, even if the start is
-- done and the service is active then.
default_timeout_fails :
    (config : OrchestratorConfig) (state : String) (job_id after : ℕ) (ctx_ended : Bool)
    (now : Properties)
    → config.operation_timeout ≡ 0
    → str_eq state "active" ≡ false
    → 30 ≤ after
    → (new_service_manager true config ≡ some (record config { operation_timeout = 30 }))
      × (check_and_ensure_service_active 30
            (active_state state)
            (record { job_id = some (suc job_id); result = some (after, "done") })
            ctx_ended
            now
          ≡ none)
unfolding new_service_manager check_and_ensure_service_active read_active
default_timeout_fails config state job_id after ctx_ended now no_timeout inactive slow =
    (rw no_timeout refl, let e = late 30 job_id after "done" slow in ground (arith, e))

-- What is said of a service is what was read last: it is active when it was found so, or was started
-- in time and found so afterwards.
pub check_and_ensure_service_active_lem :
    (timeout : ℕ) (before after : Properties) (start : Job) (ctx_ended : Bool)
    → check_and_ensure_service_active timeout before start ctx_ended after ≡ some true
    → (read_active before ≡ some true)
      ⊎ ((read_active before ≡ some false)
          × (systemd_operation timeout start ≡ true)
          × (ctx_ended ≡ false)
          × (read_active after ≡ some true))
unfolding check_and_ensure_service_active
check_and_ensure_service_active_lem timeout before after start ctx_ended e = ground arith
