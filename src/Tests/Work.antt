-- ===== src/Tests/Work.antt =====
-- Runs and instances for leases, the semaphore and push configurations.

use a2a_go.Base.{ℕ, true, none, some, [], ◌∷◌, ◌≡◌, ◌↔◌, refl, arith, Fault, ok, err}
use a2a_go.Base.Maps.{lookup}
use a2a_go.WorkQueue.Lease.{
  Payload, LeaseManager, new_in_memory_lease_manager, new_lease, token_map, acquire, release,
  is_execute,
}
use a2a_go.WorkQueue.Leases.{IsFree, acquire_iff, release_again}
use a2a_go.Push.Store.{PushConfig, identify, validate_config, put, save, get}
use a2a_go.Push.Configs.{IsBounded, saves, deletes, write_all, write_all-IsBounded, get-save}

abbrev work : Payload
work = record { type = "execute"; task_id = "t1" }

abbrev idle : LeaseManager ℕ
idle = new_in_memory_lease_manager

abbrev busy : LeaseManager ℕ
busy = (acquire work 7 idle).1

acquire_iff_example :
    (IsFree work busy ↔ ((acquire work 8 busy).0 ≡ ok (new_lease work 8)))
    × ((f : Fault) → (acquire work 8 busy).0 ≡ err f → (acquire work 8 busy).1 ≡ busy)
acquire_iff_example = acquire_iff work 8 busy

given : (acquire work 7 idle).0 ≡ ok (new_lease work 7)
unfolding acquire is_execute lookup
given = refl

-- pointers that all compare as equal: the second release takes the other's lease
release_again_example :
    lookup "t1" (token_map true (release (λ _ _. true) (new_lease work 6) (acquire work 7 idle).1))
    ≡ none
unfolding is_execute
release_again_example = release_again (λ _ _. true) (new_lease work 6) work 7 idle given refl refl

abbrev hook : PushConfig
hook = record {
  tenant = "";
  id = "";
  task_id = "";
  auth = none;
  token = "secret";
  url = "https://example.com/hook";
}

no_configs-IsBounded : IsBounded []
unfolding lookup
no_configs-IsBounded t = (tt, omega arith)

write_all-IsBounded_example :
    IsBounded (write_all ok (λ _. true) (saves "c1" "t1" (some hook) ∷ deletes "t1" "c1" ∷ []) [])
write_all-IsBounded_example =
    write_all-IsBounded ok (λ _. true) (saves "c1" "t1" (some hook) ∷ deletes "t1" "c1" ∷ []) []
      no_configs-IsBounded

hook_saved : (save ok (λ _. true) "c1" "t1" (some hook) []).0 ≡ ok (identify "c1" "t1" hook)
unfolding save put validate_config lookup
hook_saved = refl

get-save_example :
    (identify "c1" "t1" hook ≡ identify "c1" "t1" hook)
    × (get ok "t1" "c1" (save ok (λ _. true) "c1" "t1" (some hook) []).1
        ≡ ok (identify "c1" "t1" hook))
get-save_example =
    get-save ok (λ _. true) "c1" "t1" "t1" "c1" hook (identify "c1" "t1" hook) [] (λ c. refl)
      hook_saved
