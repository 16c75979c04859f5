-- ===== src/ShadowFtl/Ghosts.antt =====
-- The ghosts of the shadow device: the map of when each was lost and the set that orders them.
use dwpdsim.Base.{
  case_true, case_false, ℕ, ◌≡◌, refl, Bool, true, false, List, [], ◌∷◌, Option, none, some, arith,
  Map, erase, insert, Key, Ascends, sym, subst, ◌∙◌, ◌≤◌, ◌<◌, Bool-cases, inl, inr, ==true→eq,
  u64_mod, sub64_lem, has_key, has_key-insert_key, has_key-erase_key, insert_key,
  insert_key-Ascends, erase_key-Ascends, has_key-After, After-Ascends, ◌==◌, ◌&&◌, if◌then◌else◌,
  ltb, sub64,
}
use dwpdsim.Types.{TimestampNs, NodeId}
use dwpdsim.ShadowFtl.Device.{ShadowFtl, ghost_ttl, expire_from, expire_ghosts, forget, record_loss}

abbrev pub lost_at : Option TimestampNs → ℕ → Bool
lost_at none t = false
lost_at (some u) t = t == u

-- The set has the time and the hash of each ghost, and nothing else.
pub record Agree (e : List Key) (g : Map TimestampNs) : Type 0 where
  pub ordered : Ascends e
  pub same : (t : ℕ) (h : ℕ) → has_key (t, h) e ≡ lost_at (g h) t

abbrev pub is_expired : TimestampNs → ℕ → Bool
is_expired now t = ltb t now && ltb ghost_ttl (sub64 now t)

Agree-tail :
    (k : Key) (e : List Key) (g : Map TimestampNs) → Agree (k ∷ e) g → Agree e (erase k.1 g)
unfolding has_key
Agree-tail k e g a = record {
  ordered = After-Ascends k e a.ordered;
  same = λ t h. ground (arith, a.same t h, a.same k.0 k.1, has_key-After k (t, h) e a.ordered);
}

pub forget-Agree :
    (o : Option TimestampNs) (h : NodeId) (e : List Key) (g : Map TimestampNs)
    → g h ≡ o
    → Agree e g
    → Agree (forget o h e) (erase h g)
unfolding forget
forget-Agree none h e g q a = record {
  ordered = a.ordered;
  same = λ t j. ground (arith, q, a.same t j);
}
forget-Agree (some u) h e g q a = record {
  ordered = erase_key-Ascends (u, h) e a.ordered;
  same = λ t j. ground (arith, q, a.same t j, has_key-erase_key (t, j) (u, h) e a.ordered);
}

pub insert-Agree :
    (t h : ℕ) (e : List Key) (g : Map TimestampNs)
    → Agree e (erase h g)
    → Agree (insert_key (t, h) e) (insert h t g)
insert-Agree t h e g a = record {
  ordered = insert_key-Ascends (t, h) e a.ordered;
  same = λ u j. ground (arith, a.same u j, has_key-insert_key (u, j) (t, h) e);
}

abbrev pub unexpired : TimestampNs → Option TimestampNs → Option TimestampNs
unexpired now none = none
unexpired now (some t) = if is_expired now t then none else some t

is_expired-later :
    (now t u : ℕ) → now < u64_mod → t ≤ u → is_expired now t ≡ false → is_expired now u ≡ false
is_expired-later now t u b h e = ground (arith, b, h, e, sub64_lem now t, sub64_lem now u)

expire_from-expired :
    (now : TimestampNs) (k : Key) (e : List Key) (g : Map TimestampNs)
    → is_expired now k.0 ≡ true
    → expire_from now (k ∷ e) g ≡ expire_from now e (erase k.1 g)
unfolding expire_from
expire_from-expired now k e g h = case_true (is_expired now k.0) _ _ h

expire_from-kept :
    (now : TimestampNs) (k : Key) (e : List Key) (g : Map TimestampNs)
    → is_expired now k.0 ≡ false
    → expire_from now (k ∷ e) g ≡ (k ∷ e, g)
unfolding expire_from
expire_from-kept now k e g h = case_false (is_expired now k.0) _ _ h

abbrev Expires : TimestampNs → Map TimestampNs → List Key × Map TimestampNs → Type 0
Expires now g out = Agree out.0 out.1 × ((h : NodeId) → out.1 h ≡ unexpired now (g h))

unexpired-kept :
    (now : TimestampNs) (k : Key) (e : List Key) (g : Map TimestampNs)
    → now < u64_mod
    → Agree (k ∷ e) g
    → is_expired now k.0 ≡ false
    → (h : NodeId) (o : Option TimestampNs) → g h ≡ o
    → o ≡ unexpired now o
unfolding has_key
unexpired-kept now k e g b a f h none q = refl
unexpired-kept now k e g b a f h (some t) q =
    let here = has_key-After k (t, h) e a.ordered in
    let same = a.same t h in
    let le : k.0 ≤ t = ground (arith, here, same, q) in rw (is_expired-later now k.0 t b le f) refl

head_ghost : (k : Key) (e : List Key) (g : Map TimestampNs) → Agree (k ∷ e) g → g k.1 ≡ some k.0
unfolding has_key
head_ghost k e g a = go (g k.1) refl
  where
    go : (o : Option TimestampNs) → g k.1 ≡ o → g k.1 ≡ some k.0
    go none q = absurd (ground (arith, a.same k.0 k.1, q))
    go (some t) q = ground (arith, a.same k.0 k.1, q)

unexpired-erase :
    (now : TimestampNs) (k : Key) (e : List Key) (g : Map TimestampNs)
    → Agree (k ∷ e) g
    → is_expired now k.0 ≡ true
    → (h : NodeId) → unexpired now (erase k.1 g h) ≡ unexpired now (g h)
unfolding has_key
unexpired-erase now k e g a t h = elim (Bool-cases (h == k.1)) [
  | inl s ↦ rw s (rw (==true→eq h k.1 s) (rw (head_ghost k e g a) (rw t refl)))
  | inr s ↦ rw s refl
]

no_ghost :
    (now : TimestampNs) (g : Map TimestampNs)
    → Agree [] g
    → (h : NodeId) (o : Option TimestampNs) → g h ≡ o
    → o ≡ unexpired now o
unfolding has_key
no_ghost now g a h none q = refl
no_ghost now g a h (some t) q = absurd (ground (arith, a.same t h, q))

expire_from-Expires :
    (now : TimestampNs) (e : List Key) (g : Map TimestampNs)
    → now < u64_mod
    → Agree e g
    → Expires now g (expire_from now e g)
unfolding expire_from
expire_from-Expires now [] g b a = (a, λ h. no_ghost now g a h (g h) refl)
expire_from-Expires now (k ∷ e) g b a = elim (Bool-cases (is_expired now k.0)) [
  | inl t ↦
      let rest = expire_from-Expires now e (erase k.1 g) b (Agree-tail k e g a) in
      subst (Expires now g) (sym (expire_from-expired now k e g t))
        (rest.0, λ h. rest.1 h ∙ unexpired-erase now k e g a t h)
  | inr t ↦
      subst (Expires now g) (sym (expire_from-kept now k e g t))
        (a, λ h. unexpired-kept now k e g b a t h (g h) refl)
]

-- A device whose ghosts and the set of their expirations agree.
abbrev pub GhostsAgree : {F : Type 0} → ShadowFtl F → Type 0
GhostsAgree d = Agree d.expirations d.ghosts

pub expire_ghosts-GhostsAgree :
    {F : Type 0} (now : TimestampNs) (d : ShadowFtl F)
    → now < u64_mod
    → GhostsAgree d
    → GhostsAgree (expire_ghosts now d)
      × ((h : NodeId) → (expire_ghosts now d).ghosts h ≡ unexpired now (d.ghosts h))
unfolding expire_ghosts
expire_ghosts-GhostsAgree now d b a = expire_from-Expires now d.expirations d.ghosts b a

-- On a device with online tuning whose ghost map and expiration set agree, and before the clock
-- passes 64 bits, `record_loss` keeps them in agreement: the lost block is a ghost of this time, and
-- every other block stays the ghost that it was unless it was lost more than a day before.
pub record_loss-GhostsAgree :
    {F : Type 0} (h : NodeId) (now : TimestampNs) (d : ShadowFtl F)
    → now < u64_mod
    → d.config.online_tuning ≡ true
    → GhostsAgree d
    → GhostsAgree (record_loss h now d)
      × ((j : NodeId)
          → (record_loss h now d).ghosts j
            ≡ (if j == h then some now else unexpired now (d.ghosts j)))
unfolding record_loss expire_ghosts
record_loss-GhostsAgree h now d b o a =
    let x = expire_from-Expires now d.expirations d.ghosts b a in
    let out = expire_from now d.expirations d.ghosts in
    rw o (
      insert-Agree now h (forget (out.1 h) h out.0) out.1
          (forget-Agree (out.1 h) h out.0 out.1 refl x.0),
      λ j. ground (arith, x.1 j),
    )
