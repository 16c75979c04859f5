-- ===== src/Simulator/Admission.antt =====
-- The guards of `process_request` and `finish` of cpp/src/simulator.cpp.
use dwpdsim.Base.{
  ℕ, ◌≡◌, refl, Bool, true, false, List, Result, ok, err, logic_error, invalid_argument, ◌>>=◌,
  Ensures-known, Ensures-any, arith, Ensures-ok, Error, if◌then◌else◌,
}
use dwpdsim.Types.{HashId, TimestampNs}
use dwpdsim.Simulator.{Parts, Simulator}
use dwpdsim.Simulator.Requests.{is_before, check_request, process_request, finish, finish_at}

if_same {ℓ} : {A : Type ℓ} (c : Bool) (x : A) → (if c then x else x) ≡ x
if_same true x = refl
if_same false x = refl

three {ℓ} :
    {A : Type ℓ} (a b c : Bool) (e f g : Error) (x t : A)
    → (if a then err e else if b then err f else if c then err g else ok x) ≡ ok t
    → (a ≡ false) × (b ≡ false) × (c ≡ false)
three a b c e f g x t h = ground arith

ends {ℓ} :
    {A : Type ℓ} (c d : Bool) (e : Error) (s t : A) (r : Result A) (f : A → A) (done : A → Bool)
    → done s ≡ c
    → ((a : A) → done (f a) ≡ true)
    → (if c then ok s else if d then err e else (r >>= λ a. ok (f a))) ≡ ok t
    → done t ≡ true
unfolding ◌>>=◌
ends true d _ s t r f done h k e = cc (h, e)
ends false true _ s t r f done h k e = cc
ends false false _ s t (ok a) f done h k e = cc (k a, e)
ends false false _ s t (err x) f done h k e = cc

module _ (P : Parts) where
  check_finished :
      (now : TimestampNs) (i : ℕ) (s : Simulator P)
      → s.finished ≡ true
      → check_request P now i s ≡ err logic_error
  unfolding check_request
  check_finished now i s f = rw f

  check_before :
      (now : TimestampNs) (i : ℕ) (s : Simulator P)
      → s.finished ≡ false
      → is_before now s.last_timestamp_ns ≡ true
      → check_request P now i s ≡ err invalid_argument
  unfolding check_request
  check_before now i s f b = rw f (rw b)

  check_repeated :
      (now : TimestampNs) (i : ℕ) (s : Simulator P)
      → s.finished ≡ false
      → s.request_ids i ≡ true
      → check_request P now i s ≡ err invalid_argument
  unfolding check_request
  check_repeated now i s f k = rw f (rw k (rw if_same))

  check_passed :
      (now : TimestampNs) (i : ℕ) (s t : Simulator P)
      → check_request P now i s ≡ ok t
      → (s.finished ≡ false)
        × (is_before now s.last_timestamp_ns ≡ false)
        × (s.request_ids i ≡ false)
  unfolding check_request
  check_passed now i s t e =
      three s.finished (is_before now s.last_timestamp_ns) (s.request_ids i) _ _ _ _ t e

  -- Why a request is refused.
  pub data Refuses (now : TimestampNs) (i : ℕ) (s : Simulator P) : Error → Type 0 where
    after_end : s.finished ≡ true → Refuses now i s logic_error
    backwards :
        s.finished ≡ false
        → is_before now s.last_timestamp_ns ≡ true
        → Refuses now i s invalid_argument
    repeated : s.finished ≡ false → s.request_ids i ≡ true → Refuses now i s invalid_argument

  -- A finished simulator refuses every request as a logic error. Otherwise a request before the last
  -- one, or with an identifier that was used, is an invalid argument.
  pub process_request-Refuses :
      (now : TimestampNs) (i affinity : ℕ) (hs : List HashId) (s : Simulator P) (e : Error)
      → Refuses now i s e
      → process_request P now i affinity hs s ≡ err e
  unfolding process_request ◌>>=◌
  process_request-Refuses now i affinity hs s _ (after_end f) = rw (check_finished now i s f)
  process_request-Refuses now i affinity hs s _ (backwards f b) = rw (check_before now i s f b)
  process_request-Refuses now i affinity hs s _ (repeated f k) = rw (check_repeated now i s f k)

  -- A request that is served came before the end, not before the last request, and with a new
  -- identifier.
  pub process_request-passed :
      (now : TimestampNs) (i affinity : ℕ) (hs : List HashId) (s t : Simulator P)
      → process_request P now i affinity hs s ≡ ok t
      → (s.finished ≡ false)
        × (is_before now s.last_timestamp_ns ≡ false)
        × (s.request_ids i ≡ false)
  unfolding process_request
  process_request-passed now i affinity hs s t e =
      Ensures-ok t (Ensures-known _ λ s1 checked. Ensures-any _ (check_passed now i s s1 checked)) e

  -- Finishing a second time changes nothing, and a request after the end is a logic error.
  pub finish-closes :
      (s t : Simulator P)
      → finish P s ≡ ok t
      → (finish P t ≡ ok t)
        × ((now : TimestampNs) (i affinity : ℕ) (hs : List HashId)
            → process_request P now i affinity hs t ≡ err logic_error)
  unfolding finish finish_at ◌>>=◌
  finish-closes s t e =
      let f =
        ends s.finished _ _ s t _ (λ k. record k { finished = true }) (λ k. k.finished) refl
          (λ k. refl) e in
      (
        rw f,
        λ now i affinity hs. process_request-Refuses now i affinity hs t logic_error (after_end f),
      )
