-- ===== src/Tests/Runs.antt =====
-- Runs of a small simulator.
use dwpdsim.Base.{
  ℕ, arith, ◌≡◌, refl, true, false, List, [], ◌∷◌, Option, none, some, Result, ok, err, is_ok, the,
  the_lem, logic_error, invalid_argument,
}
use dwpdsim.Types.{slc, HashId, TimestampNs}
use dwpdsim.MemoryPolicy.Baseline.{new_policy}
use dwpdsim.StoragePolicy.Searches.{SegmentTime, lru_leaf}
use dwpdsim.StoragePolicy.Searches.Least.{IsVictim, lru_leaf-IsVictim}
use dwpdsim.Simulator.{Simulator, view, validate_config}
use dwpdsim.Simulator.Config.{IsValid, validate_config-IsValid}
use dwpdsim.Simulator.Requests.{process_request, finish}
use dwpdsim.Simulator.Admission.{finish-closes}
use dwpdsim.Simulator.Histories.{
  built, served, Reachable-Agrees, Serves, opened, answered, asked_again, IsOrderly,
  Serves-IsOrderly, Serves-refuses,
}
use dwpdsim.Simulator.Books.Requests.{Agrees}
use dwpdsim.Tests.Scenario.{
  code, small_parts, small_config, fixed_policy, started, started_ok, first_request, first_ok,
}

Reachable-Agrees_example : Agrees small_parts (the first_request first_ok)
Reachable-Agrees_example = Reachable-Agrees small_parts (the first_request first_ok) (
    served (the started started_ok) (the first_request first_ok) 5 1 0 (1 ∷ 2 ∷ 3 ∷ [])
      (built small_config (new_policy true) fixed_policy none (the started started_ok)
        (the_lem started started_ok))
      (the_lem first_request first_ok))

abbrev victim : Result (Option SegmentTime)
victim =
    lru_leaf (the first_request first_ok).storage_state.state slc []
      (view small_parts (the first_request first_ok))

victim_ok : is_ok victim ≡ true
unfolding code
victim_ok = refl

-- The victim is the segment that holds the dumped blocks.
victim_first : the victim victim_ok ≡ some (record { endpoint = 3; timestamp_ns = 5 })
unfolding code
victim_first = refl

lru_leaf-IsVictim_example :
    IsVictim
      (the first_request first_ok).storage_state.state
      slc
      []
      (view small_parts (the first_request first_ok))
      (the victim victim_ok)
lru_leaf-IsVictim_example =
    lru_leaf-IsVictim (the first_request first_ok).storage_state.state slc []
      (view small_parts (the first_request first_ok)) (the victim victim_ok)
      (the_lem victim victim_ok)

validate_config-IsValid_example :
    (IsValid small_config → is_ok (validate_config small_config) ≡ true)
    × (is_ok (validate_config small_config) ≡ true → IsValid small_config)
validate_config-IsValid_example = validate_config-IsValid small_config

first_run : Serves small_parts ((5, 1) ∷ []) (the first_request first_ok)
first_run =
    answered [] (the started started_ok) (the first_request first_ok) 5 1 0 (1 ∷ 2 ∷ 3 ∷ [])
      (opened small_config (new_policy true) fixed_policy none (the started started_ok)
        (the_lem started started_ok))
      (the_lem first_request first_ok)

abbrev second_request : Result (Simulator small_parts)
second_request = process_request small_parts 6 2 0 (1 ∷ 4 ∷ []) (the first_request first_ok)

second_ok : is_ok second_request ≡ true
unfolding code
second_ok = refl

second_run : Serves small_parts ((6, 2) ∷ (5, 1) ∷ []) (the second_request second_ok)
second_run =
    answered ((5, 1) ∷ []) (the first_request first_ok) (the second_request second_ok) 6 2 0
      (1 ∷ 4 ∷ []) first_run (the_lem second_request second_ok)

second_open : (the second_request second_ok).finished ≡ false
unfolding code
second_open = refl

Serves-IsOrderly_example : IsOrderly ((6, 2) ∷ (5, 1) ∷ [])
Serves-IsOrderly_example =
    Serves-IsOrderly small_parts ((6, 2) ∷ (5, 1) ∷ []) (the second_request second_ok) second_run

Serves-refuses_example :
    process_request small_parts 7 1 0 (4 ∷ []) (the second_request second_ok) ≡ err invalid_argument
Serves-refuses_example =
    Serves-refuses small_parts ((6, 2) ∷ (5, 1) ∷ []) (the second_request second_ok) 7 1 0 (4 ∷ [])
      invalid_argument second_run (asked_again second_open (ground arith))

abbrev ended_run : Result (Simulator small_parts)
ended_run = finish small_parts (the first_request first_ok)

ended_ok : is_ok ended_run ≡ true
unfolding code finish
ended_ok = refl

finish-closes_example :
    (finish small_parts (the ended_run ended_ok) ≡ ok (the ended_run ended_ok))
    × ((now : TimestampNs) (i affinity : ℕ) (hs : List HashId)
        → process_request small_parts now i affinity hs (the ended_run ended_ok) ≡ err logic_error)
finish-closes_example =
    finish-closes small_parts (the first_request first_ok) (the ended_run ended_ok)
      (the_lem ended_run ended_ok)
