-- ===== src/Simulator/Timeline.antt =====
-- `run_until`, `close_feedback_window` and `drain_background_tick` of cpp/src/simulator.cpp: the
-- periodic events before a request. A timer is 0 when it is off. The controller's CSV rows are not
-- modelled.
use dwpdsim.Base.{
  ℕ, suc, zero, Bool, true, false, [], none, some, Result, ok, err, undefined, out_of_fuel, ◌>>=◌,
  or_fail, add64, sub64, ltb, leb, ◌==◌, ◌&&◌, ◌||◌, not, ◌+◌, if◌then◌else◌,
}
use dwpdsim.Types.{TimestampNs}
use dwpdsim.Trace.{TraceContext}
use dwpdsim.Simulator.{Parts, Simulator, view, on_metrics}
use dwpdsim.Simulator.Trimming.{background}
use dwpdsim.Simulator.Capacity.{ensure_capacity, execute_action, rounds}

-- A timer that would pass the greatest timestamp is turned off.
unfoldable pub advance : TimestampNs → TimestampNs → TimestampNs
advance next period = if ltb (sub64 18446744073709551615 period) next then 0 else add64 next period

abbrev pub is_due : TimestampNs → TimestampNs → Bool
is_due next target = not (next == 0) && leb next target

module _ (P : Parts) where
  unfoldable pub close_feedback_window : TimestampNs → Simulator P → Result (Simulator P)
  close_feedback_window now s = do
    d ← or_fail s.shadow undefined
    let out = P.shadow_device.close_window now d
    p ← P.storage_policy.on_shadow_feedback out.0 (view P s) s.storage_state
    ok (record s { shadow = some out.1; storage_state = p })

  -- The policy's maintenance actions, until it has none or one fails.
  unfoldable pub drain_actions : ℕ → TimestampNs → TraceContext → Simulator P → Result (Simulator P)
  drain_actions zero now context s = err out_of_fuel
  drain_actions (suc n) now context s =
      P.storage_policy.next_background_action now (view P s) s.storage_state >>= λ a. elim a.0 [
        | none ↦ ok (record s { storage_state = a.1 })
        | some action ↦
            execute_action P (ensure_capacity P) action background [] context
              (record s { storage_state = a.1 })
            >>= λ out. elim out.0 [ true ↦ drain_actions n now context out.1 | false ↦ ok out.1 ]
      ]

  unfoldable pub drain_background_tick : TimestampNs → Simulator P → Result (Simulator P)
  unfolding drain_actions
  drain_background_tick now s =
      drain_actions (rounds P s) now
        (record { timestamp_ns = now; request_id = none; access_sequence = none })
        (on_metrics P (λ m. record m { background_ticks = add64 m.background_ticks 1 }) s)

  -- One event: the feedback window closes before a background tick of the same time.
  unfoldable pub run_event : TimestampNs → TimestampNs → Simulator P → Result (Simulator P)
  unfolding close_feedback_window drain_background_tick advance
  run_event period target s =
      if is_due s.next_feedback_ns target
        && (not (is_due s.next_background_tick_ns target)
            || leb s.next_feedback_ns s.next_background_tick_ns)
      then (do
        s1 ← close_feedback_window s.next_feedback_ns s
        ok (record s1 { next_feedback_ns = advance s1.next_feedback_ns s1.feedback_period_ns }))
      else (do
        s1 ← drain_background_tick s.next_background_tick_ns s
        ok (record s1 { next_background_tick_ns = advance s1.next_background_tick_ns period }))

  unfoldable pub run_events : ℕ → TimestampNs → TimestampNs → Simulator P → Result (Simulator P)
  unfolding run_event
  run_events zero period target s =
      if is_due s.next_feedback_ns target || is_due s.next_background_tick_ns target
      then err out_of_fuel
      else ok s
  run_events (suc n) period target s =
      elim (is_due s.next_feedback_ns target || is_due s.next_background_tick_ns target) [
        | false ↦ ok s
        | true ↦ run_event period target s >>= λ k. run_events n period target k
      ]

  -- No event comes after the target, and each moves its timer by a nanosecond at least.
  unfoldable pub run_until : TimestampNs → Simulator P → Result (Simulator P)
  unfolding run_events
  run_until target s =
      if s.config.infinite_storage
      then ok s
      else run_events (target + target + 2) (P.storage_policy.background_period_ns s.storage_state)
          target s
