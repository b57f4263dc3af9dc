-- ===== src/Service/KeyedMutex/Tests.antt =====
-- The keyed mutex with two goroutines on one key and one on another.
use donkey_work_vault.Base.{◌≡◌, ◌↔◌, ◌≤◌, refl, [], ◌∷◌, none, some}
use donkey_work_vault.Base.Table.{get, put}
use donkey_work_vault.Service.KeyedMutex.{
  waiting, holding, System, Step, enters, acquires, releases, Reach, initially, later, enter,
  set_held,
}
use donkey_work_vault.Service.KeyedMutex.Counted.{tally}
use donkey_work_vault.Service.KeyedMutex.Exclusion.{
  holds_key, uses_key, Act, locked, mutual_exclusion, idle_iff, Step-Act, waiting_goes_on,
}

-- Key 5 is entered twice, and the second to enter holds it.
abbrev contended : (s : System) × Reach s
unfolding enter get put set_held
contended = (
  _,
  later (later (later (later initially (enters 5)) (enters 5)) (enters 7))
      (acquires (waiting 7 1 ∷ []) (waiting 5 0 ∷ []) 5 0 refl refl),
)

-- It has given the key back.
abbrev released : (s : System) × Step contended.0 s
unfolding contended
released = (_, releases (waiting 7 1 ∷ []) (waiting 5 0 ∷ []) 5 0 refl)

two_addresses : (get 5 contended.0.mutex.locks ≡ some 0) × (get 7 contended.0.mutex.locks ≡ some 1)
unfolding get put enter set_held
two_addresses = (refl, refl)

mutual_exclusion_example : tally (holds_key 5) contended.0.threads ≤ 1
mutual_exclusion_example = mutual_exclusion contended.1 5

idle_iff_example :
    (get 6 contended.0.mutex.locks ≡ none) ↔ (tally (uses_key 6) contended.0.threads ≡ 0)
idle_iff_example = idle_iff contended.1 6

Step-Act_example : Act (locked contended.0) (locked released.0)
Step-Act_example = Step-Act contended.1 released.1

waiting_goes_on_example :
    (t : System) × Step contended.0 t × (t.threads ≡ holding 7 1 ∷ holding 5 0 ∷ waiting 5 0 ∷ [])
unfolding contended
waiting_goes_on_example =
    waiting_goes_on contended.1 [] (holding 5 0 ∷ waiting 5 0 ∷ []) 7 1 refl refl
