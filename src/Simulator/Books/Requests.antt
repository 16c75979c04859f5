-- ===== src/Simulator/Books/Requests.antt =====
-- Every request, and the end of the run, keep the books of the simulator.
use dwpdsim.Base.{
  true, false, none, some, ap, ap₂, ◌∙◌, ◌==◌, if◌then◌else◌, Ensures-if_known, ℕ, suc, zero, List,
  [], ◌∷◌, Option, ok, ◌≡◌, refl, arith, add64, u64_mod, ◌+◌, ◌%◌, Ensures, returns, fails,
  Ensures-bind, Ensures-after, Ensures-if, Ensures-case, Ensures-option, Ensures-ok, logic_error,
  invalid_argument,
}
use dwpdsim.Types.{
  NodeId, HashId, TimestampNs, StorageTier, slc, tlc, at_tier, SimulationConfig, RequestContext,
  AccessResult, memory_hit, slc_hit, tlc_hit, global_miss,
}
use dwpdsim.Storage.{new_storage, new_tier}
use dwpdsim.Metrics
use dwpdsim.Metrics.{new_metrics, record_request}
use dwpdsim.Trace.{TraceContext, new_writer}
use dwpdsim.Simulator.{Parts, Simulator}
use dwpdsim.Simulator.Timeline.{
  close_feedback_window, drain_actions, drain_background_tick, run_event, run_events, run_until,
}
use dwpdsim.Simulator.Requests.{
  new_simulator, announce, process_block, process_blocks, begin_request, process_request,
  check_request, finish_at, finish, Progress, count_access, is_before,
}
use dwpdsim.Simulator.Capacity.{ensure_capacity}
use dwpdsim.Simulator.Books.{Frame, Past, past_of, Books, InBooks, no_debt}
use dwpdsim.Simulator.Books.Capacity.{ensure_capacity-KeepsBooks, execute_action-InBooks}
use dwpdsim.Simulator.Books.Access.{process_access-InBooks}

zero_blocks :
    (v : SimulationConfig) (t : StorageTier)
    → (at_tier t (new_storage v)).used_blocks
      ≡ (at_tier t (new_metrics v).storage_resident_blocks + 0) % u64_mod
unfolding new_storage new_tier new_metrics
zero_blocks v slc = refl
zero_blocks v tlc = refl

abbrev pub fresh_past : Past
fresh_past = record { closed = false; asked = λ i. false; last = none }

zero-Books :
    (v : SimulationConfig)
    → Books no_debt
        (record { open_accesses = 0; past = fresh_past })
        (new_storage v)
        (new_metrics v).storage_resident_blocks
        0
        (new_metrics v).memory_resident_blocks
        0
        (new_metrics v).block_access_count
        (new_metrics v).memory_hits
        (new_metrics v).slc_hits
        (new_metrics v).tlc_hits
        (new_metrics v).global_misses
        (new_writer v.block_size_bytes)
        fresh_past
unfolding new_metrics new_writer
zero-Books v = record {
  tiers = zero_blocks v;
  memory = refl;
  started = refl;
  results = refl;
  rows = refl;
  kept = refl;
}

abbrev frame : ℕ → Past → Frame
frame n past = record { open_accesses = n; past = past }

-- Between two requests every allocated block is counted and no access is under way.
abbrev pub Held : (P : Parts) → Past → Simulator P → Type 0
Held P past s = InBooks P no_debt (frame 0 past) s

module _ (P : Parts) (past : Past) where
  drain_actions-Held :
      (n : ℕ) (now : TimestampNs) (c : TraceContext) (s : Simulator P)
      → Held P past s
      → Ensures (Held P past) (drain_actions P n now c s)
  unfolding drain_actions
  drain_actions-Held zero now c s b = fails
  drain_actions-Held (suc n) now c s b = Ensures-after _ λ a.
      Ensures-option a.0 (returns b) λ action.
        Ensures-bind
          (execute_action-InBooks P no_debt (frame 0 past) (ensure_capacity P) action _ _ c
            (record s { storage_state = a.1 }) (ensure_capacity-KeepsBooks P no_debt (frame 0 past))
            b)
          λ out b1. Ensures-case out.0 (drain_actions-Held n now c out.1 b1) (returns b1)

  run_event-Held :
      (period target : TimestampNs) (s : Simulator P)
      → Held P past s
      → Ensures (Held P past) (run_event P period target s)
  unfolding run_event close_feedback_window drain_background_tick
  run_event-Held period target s b =
      Ensures-if _
        (Ensures-bind {P = Held P past} (Ensures-after _ λ h. Ensures-after _ λ p. returns b)
          λ s1 b1. returns b1)
        (Ensures-bind (drain_actions-Held _ _ _ _ b) λ s1 b1. returns b1)

  run_events-Held :
      (n : ℕ) (period target : TimestampNs) (s : Simulator P)
      → Held P past s
      → Ensures (Held P past) (run_events P n period target s)
  unfolding run_events
  run_events-Held zero period target s b = Ensures-if _ fails (returns b)
  run_events-Held (suc n) period target s b =
      Ensures-case _
        (Ensures-bind (run_event-Held period target s b)
          λ t b1. run_events-Held n period target t b1)
        (returns b)

  run_until-Held :
      (target : TimestampNs) (s : Simulator P)
      → Held P past s
      → Ensures (Held P past) (run_until P target s)
  unfolding run_until
  run_until-Held target s b =
      Ensures-if s.config.infinite_storage (returns b) (run_events-Held _ _ target s b)

  announce-InBooks :
      (k : Frame) (h : NodeId) (s : Simulator P)
      → InBooks P no_debt k s
      → Ensures (InBooks P no_debt k) (announce P h s)
  unfolding announce
  announce-InBooks k h s b = Ensures-after _ λ m. Ensures-after _ λ p. returns b

  -- The access under way is counted by its result.
  closed :
      (r : AccessResult) (s : Simulator P)
      → InBooks P no_debt (frame 1 past) s
      → Held P past (record s { metrics = Metrics.record_access r s.metrics })
  unfolding Metrics.record_access add64
  closed memory_hit s b = record {
    tiers = b.tiers;
    memory = b.memory;
    started = omega (arith, b.started);
    results = omega (arith, b.results);
    rows = b.rows;
    kept = b.kept;
  }
  closed slc_hit s b = record {
    tiers = b.tiers;
    memory = b.memory;
    started = omega (arith, b.started);
    results = omega (arith, b.results);
    rows = b.rows;
    kept = b.kept;
  }
  closed tlc_hit s b = record {
    tiers = b.tiers;
    memory = b.memory;
    started = omega (arith, b.started);
    results = omega (arith, b.results);
    rows = b.rows;
    kept = b.kept;
  }
  closed global_miss s b = record {
    tiers = b.tiers;
    memory = b.memory;
    started = omega (arith, b.started);
    results = omega (arith, b.results);
    rows = b.rows;
    kept = b.kept;
  }

  opened :
      (s : Simulator P)
      → Held P past s
      → InBooks P no_debt
          (frame 1 past)
          (record s { next_access_sequence = add64 s.next_access_sequence 1 })
  unfolding add64
  opened s b = record {
    tiers = b.tiers;
    memory = b.memory;
    started = omega (arith, b.started);
    results = b.results;
    rows = b.rows;
    kept = b.kept;
  }

  process_block-Held :
      (q : RequestContext) (position : ℕ) (h : HashId) (p : Progress) (s : Simulator P)
      → Held P past s
      → Ensures (λ out. Held P past out.1) (process_block P q position h p s)
  unfolding process_block count_access
  process_block-Held q position h p s b = Ensures-after _ λ c.
      Ensures-bind {P = Held P past}
        (Ensures-if c.1 (announce-InBooks (frame 0 past) c.0 (record s { tree = c.2 }) b)
          (returns b))
        λ s2 b1.
          Ensures-bind (process_access-InBooks P no_debt (frame 1 past) _ _ (opened s2 b1))
            λ out b2. returns (closed _ out.1 b2)

  process_blocks-Held :
      (q : RequestContext) (position : ℕ) (hs : List HashId) (p : Progress) (s : Simulator P)
      → Held P past s
      → Ensures (λ out. Held P past out.1) (process_blocks P q position hs p s)
  unfolding process_blocks
  process_blocks-Held q position [] p s b = returns b
  process_blocks-Held q position (h ∷ hs) p s b =
      Ensures-bind (process_block-Held q position h p s b)
        λ out b1. process_blocks-Held q (suc position) hs out.0 out.1 b1

module _ (P : Parts) where
  -- Between two requests every allocated block is counted and no access is under way.
  abbrev pub Agrees : Simulator P → Type 0
  Agrees s = Held P (past_of P s) s

  pub Held-Agrees : (past : Past) (s : Simulator P) → Held P past s → Agrees s
  Held-Agrees past s b = record {
    tiers = b.tiers;
    memory = b.memory;
    started = b.started;
    results = b.results;
    rows = b.rows;
    kept = refl;
  }

  -- The past of a run after a request, and after the end.
  abbrev pub past_after : TimestampNs → ℕ → Simulator P → Past
  past_after now i s = record {
    closed = false;
    asked = λ j. if j == i then true else s.request_ids j;
    last = some now;
  }

  abbrev pub past_ended : Simulator P → Past
  past_ended s = record { closed = true; asked = s.request_ids; last = s.last_timestamp_ns }

  -- The past once the guards are passed, and once the request has begun.
  abbrev past_asked : ℕ → Simulator P → Past
  past_asked i s = record {
    closed = false;
    asked = λ j. if j == i then true else s.request_ids j;
    last = s.last_timestamp_ns;
  }

  check_request-Held :
      (now : TimestampNs) (i : ℕ) (s : Simulator P)
      → Agrees s
      → Ensures (Held P (past_asked i s)) (check_request P now i s)
  unfolding check_request
  check_request-Held now i s b =
      Ensures-if_known s.finished (λ f. fails {e = logic_error})
        (λ f. Ensures-if (is_before now s.last_timestamp_ns) (fails {e = invalid_argument}) (
          Ensures-if (s.request_ids i) (fails {e = invalid_argument}) (
            returns (record {
              tiers = b.tiers;
              memory = b.memory;
              started = b.started;
              results = b.results;
              rows = b.rows;
              kept =
                  ap
                    (λ c. record {
                      closed = c;
                      asked = λ j. if j == i then true else s.request_ids j;
                      last = s.last_timestamp_ns;
                    })
                    f;
            }))))

  begin_request-Held :
      (now : TimestampNs) (i : ℕ) (given : Simulator P) (q : RequestContext) (s : Simulator P)
      → q.timestamp_ns ≡ now
      → Held P (past_asked i given) s
      → Ensures (Held P (past_after now i given)) (begin_request P q s)
  unfolding begin_request record_request
  begin_request-Held now i given q s e b = Ensures-after _ λ p. Ensures-after _ λ m.
      returns (record {
        tiers = b.tiers;
        memory = b.memory;
        started = b.started;
        results = b.results;
        rows = b.rows;
        kept =
            ap₂ (λ (o : Past) l. record { closed = o.closed; asked = o.asked; last = l }) b.kept
              (ap some e);
      })

  process_request-Held :
      (now : TimestampNs) (i affinity : ℕ) (hs : List HashId) (s : Simulator P)
      → Agrees s
      → Ensures (Held P (past_after now i s)) (process_request P now i affinity hs s)
  unfolding process_request
  process_request-Held now i affinity hs s b = Ensures-bind (check_request-Held now i s b) λ s1 b1.
      Ensures-bind (run_until-Held P (past_asked i s) now s1 b1) λ s2 b2. Ensures-after _ λ prefix.
        Ensures-bind
          (begin_request-Held now i s _ (record s2 { protected_prefix = prefix }) refl b2)
          λ s3 b3.
            Ensures-bind
              (process_blocks-Held P (past_after now i s) _ 0 hs _ (record s3 { shadow = _ }) b3)
              λ out b4. Ensures-after _ λ m. returns b4

  finish-Held : (s : Simulator P) → Agrees s → Ensures (Held P (past_ended s)) (finish P s)
  unfolding finish finish_at
  finish-Held s b =
      Ensures-if_known s.finished (λ f. returns {a = s} (closing f s b))
        (λ f. Ensures-if _ (fails {e = invalid_argument}) (
          Ensures-bind (run_until-Held P (past_of P s) _ s b) λ s1 b1. returns (record {
            tiers = b1.tiers;
            memory = b1.memory;
            started = b1.started;
            results = b1.results;
            rows = b1.rows;
            kept =
                ap (λ (o : Past). record { closed = true; asked = o.asked; last = o.last }) b1.kept;
          })))
    where
      closing :
          (s.finished ≡ true) → (t : Simulator P) → Held P (past_of P s) t → Held P (past_ended s) t
      closing f t c = record {
        tiers = c.tiers;
        memory = c.memory;
        started = c.started;
        results = c.results;
        rows = c.rows;
        kept =
            c.kept
            ∙ ap (λ x. record { closed = x; asked = s.request_ids; last = s.last_timestamp_ns }) f;
      }

  -- A simulator just built agrees with its counters, and has no past.
  pub new_simulator-Held :
      (c : SimulationConfig) (m : P.memory_policy.State) (p : P.storage_policy.State)
      (d : Option (P.shadow_device.State × TimestampNs)) (s : Simulator P)
      → new_simulator P c m p d ≡ ok s
      → Held P fresh_past s
  unfolding new_simulator
  new_simulator-Held c m p d s e =
      Ensures-ok {P = Held P fresh_past} s (Ensures-after _ λ v. returns (zero-Books v)) e

  -- A request that is served from a state whose counters agree with it leaves such a state.
  pub process_request-Agrees :
      (now : TimestampNs) (i affinity : ℕ) (hs : List HashId) (s t : Simulator P)
      → Agrees s
      → process_request P now i affinity hs s ≡ ok t
      → Held P (past_after now i s) t
  process_request-Agrees now i affinity hs s t b e =
      Ensures-ok t (process_request-Held now i affinity hs s b) e

  pub finish-Agrees : (s t : Simulator P) → Agrees s → finish P s ≡ ok t → Held P (past_ended s) t
  finish-Agrees s t b e = Ensures-ok t (finish-Held s b) e
