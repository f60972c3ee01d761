-- ===== src/WorkQueue/Lease.antt =====
-- The leases of one process, a2asrv/workqueue/lease.go. Each call runs under the manager's mutex.
--
-- `Acquire` takes a new pointer `&struct{}{}` as the lease's token, and a release compares it with
-- the token that is stored. Go's specification leaves open whether pointers to distinct variables of
-- size zero are equal, so the pointers' type and their comparison `same` are parameters.
use a2a_go.Base.{
  String, Bool, true, false, Option, none, some, [], if◌then◌else◌, str_eq, Result, ok, err,
  lease_already_taken, is_some,
}
use a2a_go.Base.Maps.{GoMap, lookup, insert, remove}

-- `Payload`, as far as the leases read it
pub record Payload : Type 0 where
  pub type : String
  pub task_id : String

abbrev payload_type_execute : String
payload_type_execute = "execute"

-- `case PayloadTypeExecute`
unfoldable pub is_execute : Payload → Bool
is_execute p = str_eq p.type payload_type_execute

module _ (Pointer : Type 0) where
  -- `inMemoryLeaseManager`
  pub record LeaseManager : Type 0 where
    pub executions : GoMap Pointer
    pub cancelations : GoMap Pointer

  -- `inMemoryLease` with what its release has captured; `executing` says which map it stands in
  pub record Lease : Type 0 where
    pub tid : String
    pub executing : Bool
    pub token : Pointer

module _ {Pointer : Type 0} where
  abbrev pub new_in_memory_lease_manager : LeaseManager Pointer
  new_in_memory_lease_manager = record { executions = []; cancelations = [] }

  abbrev pub token_map : Bool → LeaseManager Pointer → GoMap Pointer
  token_map true q = q.executions
  token_map false q = q.cancelations

  abbrev pub with_token_map : Bool → GoMap Pointer → LeaseManager Pointer → LeaseManager Pointer
  with_token_map true m q = record { executions = m; cancelations = q.cancelations }
  with_token_map false m q = record { executions = q.executions; cancelations = m }

  -- the new lease, stored
  abbrev pub grant : Bool → String → Pointer → LeaseManager Pointer → LeaseManager Pointer
  grant executing tid token q =
      with_token_map executing (insert tid token (token_map executing q)) q

  abbrev pub new_lease : Payload → Pointer → Lease Pointer
  new_lease p token = record { tid = p.task_id; executing = is_execute p; token = token }

  -- whether a lease that stands in the way is held
  abbrev pub is_taken : Bool → String → LeaseManager Pointer → Bool
  is_taken true tid q =
      if is_some (lookup tid q.executions) then true else is_some (lookup tid q.cancelations)
  is_taken false tid q = is_some (lookup tid q.cancelations)

  -- `Acquire`, with the pointer that the allocation gave
  unfoldable pub acquire :
      Payload → Pointer → LeaseManager Pointer → Result (Lease Pointer) × LeaseManager Pointer
  acquire p token q =
      if is_taken (is_execute p) p.task_id q
      then (err lease_already_taken, q)
      else (ok (new_lease p token), grant (is_execute p) p.task_id token q)

  release_found :
      (Pointer → Pointer → Bool)
      → Lease Pointer
      → Option Pointer
      → LeaseManager Pointer
      → LeaseManager Pointer
  release_found same l none q = q
  release_found same l (some token) q =
      if same token l.token
      then with_token_map l.executing (remove l.tid (token_map l.executing q)) q
      else q

  -- `Release`; a token is never nil, so a missing entry is never equal to it
  unfoldable pub release :
      (Pointer → Pointer → Bool) → Lease Pointer → LeaseManager Pointer → LeaseManager Pointer
  unfolding release_found
  release same l q = release_found same l (lookup l.tid (token_map l.executing q)) q
