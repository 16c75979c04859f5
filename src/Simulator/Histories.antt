-- ===== src/Simulator/Histories.antt =====
-- Whole runs of cpp/src/simulator.cpp: a simulator is built, serves requests and is finished.
use dwpdsim.Base.{
  ℕ, ◌<◌, ◌≤◌, ◌==◌, ltb, true, false, List, [], ◌∷◌, Option, none, some, contains, Error, ok, err,
  logic_error, invalid_argument, ◌≡◌, sym, ap, subst, ◌∙◌, arith, Bool-cases, inl, inr,
}
use dwpdsim.Types.{HashId, TimestampNs, SimulationConfig}
use dwpdsim.Simulator.{Parts, Simulator}
use dwpdsim.Simulator.Requests.{new_simulator, process_request, finish, is_before}
use dwpdsim.Simulator.Admission.{
  process_request-Refuses, process_request-passed, after_end, backwards, repeated,
}
use dwpdsim.Simulator.Books.{Past}
use dwpdsim.Simulator.Books.Requests.{
  fresh_past, past_after, past_ended, Held-Agrees, Agrees, new_simulator-Held,
  process_request-Agrees, finish-Agrees,
}

-- The requests that a run served, as times with identifiers, the newest first.
abbrev pub Served : Type 0
Served = List (TimestampNs × ℕ)

abbrev pub times : Served → List ℕ
times [] = []
times (x ∷ xs) = x.0 ∷ times xs

abbrev pub ids : Served → List ℕ
ids [] = []
ids (x ∷ xs) = x.1 ∷ ids xs

abbrev newest : Served → Option TimestampNs
newest [] = none
newest (x ∷ xs) = some x.0

-- No request is earlier than one before it, and no identifier occurs twice.
abbrev pub IsOrderly : Served → Type 0
IsOrderly [] = Unit
IsOrderly (x ∷ xs) =
    ((t : ℕ) → contains (times xs) t ≡ true → t ≤ x.0)
    × ((contains (ids xs) x.1 ≡ false) × IsOrderly xs)

-- Every time of a run is at most the newest one.
times_before :
    (x : TimestampNs × ℕ) (xs : Served) (t : ℕ)
    → IsOrderly (x ∷ xs)
    → contains (times (x ∷ xs)) t ≡ true
    → t ≤ x.0
times_before x xs t o h = elim (Bool-cases (x.0 == t)) [
  | inl z ↦ ground (arith, z)
  | inr z ↦ o.0 t (ground (arith, h, z))
]

not_before :
    (l : Served) (last : Option TimestampNs) (now t : TimestampNs)
    → IsOrderly l
    → last ≡ newest l
    → is_before now last ≡ false
    → contains (times l) t ≡ true
    → t ≤ now
not_before [] last now t o e f h = cc h
not_before (x ∷ xs) last now t o e f h =
    let g : ltb now x.0 ≡ false = subst (λ z. is_before now z ≡ false) e f in
    let b = times_before x xs t o h in ground (arith, g, b)

goes_back :
    (l : Served) (now t : TimestampNs)
    → IsOrderly l
    → contains (times l) t ≡ true
    → now < t
    → is_before now (newest l) ≡ true
goes_back [] now t o h b = cc h
goes_back (x ∷ xs) now t o h b = let c = times_before x xs t o h in ground (arith, b, c)

module _ (P : Parts) where
  -- The states that calls of the public operations lead to.
  pub data Reachable : Simulator P → Type 0 where
    built :
        (c : SimulationConfig) (m : P.memory_policy.State) (p : P.storage_policy.State)
        (d : Option (P.shadow_device.State × TimestampNs)) (s : Simulator P)
        → new_simulator P c m p d ≡ ok s
        → Reachable s
    served :
        (s t : Simulator P) (now : TimestampNs) (i affinity : ℕ) (hs : List HashId)
        → Reachable s
        → process_request P now i affinity hs s ≡ ok t
        → Reachable t
    ended : (s t : Simulator P) → Reachable s → finish P s ≡ ok t → Reachable t

  -- In every state that a run reaches, with whatever policies and shadow device, modulo 2^64: the
  -- blocks that each tier has in use are those that the metrics count there; the blocks that the
  -- simulator counts in memory are those that the metrics count; the number of accesses begun is
  -- the number counted, and that is the sum of the four kinds of results; and the rows of the trace
  -- are numbered without gaps from 0.
  pub Reachable-Agrees : (s : Simulator P) → Reachable s → Agrees P s
  Reachable-Agrees s (built c m p d _ e) =
      Held-Agrees P fresh_past s (new_simulator-Held P c m p d s e)
  Reachable-Agrees t (served s _ now i affinity hs r e) =
      Held-Agrees P (past_after P now i s) t
        (process_request-Agrees P now i affinity hs s t (Reachable-Agrees s r) e)
  Reachable-Agrees t (ended s _ r e) =
      Held-Agrees P (past_ended P s) t (finish-Agrees P s t (Reachable-Agrees s r) e)

  -- The states of a run with the requests that it served.
  pub data Serves : Served → Simulator P → Type 0 where
    opened :
        (c : SimulationConfig) (m : P.memory_policy.State) (p : P.storage_policy.State)
        (d : Option (P.shadow_device.State × TimestampNs)) (s : Simulator P)
        → new_simulator P c m p d ≡ ok s
        → Serves [] s
    answered :
        (l : Served) (s t : Simulator P) (now : TimestampNs) (i affinity : ℕ) (hs : List HashId)
        → Serves l s
        → process_request P now i affinity hs s ≡ ok t
        → Serves ((now, i) ∷ l) t
    closed : (l : Served) (s t : Simulator P) → Serves l s → finish P s ≡ ok t → Serves l t

  Serves-Reachable : (l : Served) (s : Simulator P) → Serves l s → Reachable s
  Serves-Reachable _ s (opened c m p d _ e) = built c m p d s e
  Serves-Reachable _ t (answered l s _ now i affinity hs r e) =
      served s t now i affinity hs (Serves-Reachable l s r) e
  Serves-Reachable _ t (closed l s _ r e) = ended s t (Serves-Reachable l s r) e

  -- What the simulator remembers of the requests that it served.
  record Remembers (l : Served) (s : Simulator P) : Type 0 where
    asked : (j : ℕ) → s.request_ids j ≡ contains (ids l) j
    last : s.last_timestamp_ns ≡ newest l

  Serves-Remembers : (l : Served) (s : Simulator P) → Serves l s → Remembers l s
  Serves-Remembers _ s (opened c m p d _ e) =
      let k = (new_simulator-Held P c m p d s e).kept in
      record { asked = λ j. ap (λ (o : Past). o.asked j) k; last = ap (λ (o : Past). o.last) k }
  Serves-Remembers _ t (answered l s _ now i affinity hs r e) =
      let k =
        (process_request-Agrees P now i affinity hs s t
          (Reachable-Agrees s (Serves-Reachable l s r)) e).kept in
      let b = Serves-Remembers l s r in
      record {
        asked = λ j. ap (λ (o : Past). o.asked j) k ∙ ground (arith, b.asked j);
        last = ap (λ (o : Past). o.last) k;
      }
  Serves-Remembers _ t (closed l s _ r e) =
      let k = (finish-Agrees P s t (Reachable-Agrees s (Serves-Reachable l s r)) e).kept in
      let b = Serves-Remembers l s r in
      record {
        asked = λ j. ap (λ (o : Past). o.asked j) k ∙ b.asked j;
        last = ap (λ (o : Past). o.last) k ∙ b.last;
      }

  -- In every run, with whatever policies and shadow device, no request that is served is earlier than
  -- one served before it, and no identifier is served twice.
  pub Serves-IsOrderly : (l : Served) (s : Simulator P) → Serves l s → IsOrderly l
  Serves-IsOrderly _ s (opened c m p d _ e) = tt
  Serves-IsOrderly _ t (answered l s _ now i affinity hs r e) =
      let guards = process_request-passed P now i affinity hs s t e in
      let b = Serves-Remembers l s r in
      let o = Serves-IsOrderly l s r in
      (
        λ u h. not_before l s.last_timestamp_ns now u o b.last guards.1 h,
        (sym (b.asked i) ∙ guards.2, o),
      )
  Serves-IsOrderly _ t (closed l s _ r e) = Serves-IsOrderly l s r

  -- Why a run that served some requests refuses one more.
  pub data IsRefused (l : Served) (s : Simulator P) (now : TimestampNs) (i : ℕ)
      : Error → Type 0 where
    too_late : s.finished ≡ true → IsRefused l s now i logic_error
    asked_again :
        s.finished ≡ false → contains (ids l) i ≡ true → IsRefused l s now i invalid_argument
    out_of_order :
        (t : TimestampNs)
        → s.finished ≡ false
        → contains (times l) t ≡ true
        → now < t
        → IsRefused l s now i invalid_argument

  -- After any run, a finished simulator refuses every request as a logic error. Otherwise it refuses a
  -- request with an identifier that the run served, or earlier than a request that the run served, as an
  -- invalid argument.
  pub Serves-refuses :
      (l : Served) (s : Simulator P) (now : TimestampNs) (i affinity : ℕ) (hs : List HashId)
      (e : Error)
      → Serves l s
      → IsRefused l s now i e
      → process_request P now i affinity hs s ≡ err e
  Serves-refuses l s now i affinity hs _ r (too_late f) =
      process_request-Refuses P now i affinity hs s logic_error (after_end f)
  Serves-refuses l s now i affinity hs _ r (asked_again f h) =
      process_request-Refuses P now i affinity hs s invalid_argument
        (repeated f ((Serves-Remembers l s r).asked i ∙ h))
  Serves-refuses l s now i affinity hs _ r (out_of_order t f h b) =
      process_request-Refuses P now i affinity hs s invalid_argument (
        backwards f (
          ap (λ z. is_before now z) (Serves-Remembers l s r).last
          ∙ goes_back l now t (Serves-IsOrderly l s r) h b))
