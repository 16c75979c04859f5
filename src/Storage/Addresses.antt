-- ===== src/Storage/Addresses.antt =====
-- Who holds which block address: the addresses below `next_address` are split between the blocks
-- that are in use and the recycled ones.
use dwpdsim.Base.{
  ℕ, ◌+◌, ◌<◌, ◌≤◌, ◌≡◌, List, [], ◌∷◌, refl, true, false, arith, ltb, u64_mod, if◌then◌else◌,
  length, count, contains, remove, count-remove, length-remove, add64_lem, sub64_lem,
}
use dwpdsim.Storage.{StorageTierState, allocate, release, new_tier, take_address, grow}
use dwpdsim.Types.{StorageTierConfig}

-- `live` lists the addresses in use. Each address below `next_address` is held once, in use or
-- recycled, and no other address is held.
pub record Owns (s : StorageTierState) (live : List ℕ) : Type 0 where
  pub split :
      (a : ℕ)
      → count a live + count a s.recycled_addresses ≡ (if ltb a s.next_address then 1 else 0)
  pub counted : s.used_blocks ≡ length live
  pub total : length live + length s.recycled_addresses ≡ s.next_address
  pub peak : s.used_blocks ≤ s.peak_used_blocks
  pub in_range : s.next_address < u64_mod

pub new_tier-Owns : (c : StorageTierConfig) (b : ℕ) → Owns (new_tier c b) []
unfolding new_tier
new_tier-Owns c b = record {
  split = λ a. ground arith;
  counted = refl;
  total = omega arith;
  peak = omega arith;
  in_range = omega arith;
}

take_address-Owns :
    (s : StorageTierState) (live recycled : List ℕ)
    → s.recycled_addresses ≡ recycled
    → Owns s live
    → s.next_address + 1 < u64_mod
    → Owns (grow (take_address s recycled).1) ((take_address s recycled).0 ∷ live)
take_address-Owns s live [] e o h = record {
  split = λ a. ground (arith, o.split a, add64_lem s.next_address 1);
  counted = ground (arith, o.counted, o.total, add64_lem s.used_blocks 1);
  total = ground (arith, o.total, add64_lem s.next_address 1);
  peak = ground (arith, o.total);
  in_range = ground (arith, add64_lem s.next_address 1);
}
take_address-Owns s live (r ∷ rest) e o h = record {
  split = λ a. ground (arith, o.split a);
  counted = ground (arith, o.counted, o.total, add64_lem s.used_blocks 1);
  total = ground (arith, o.total);
  peak = ground (arith, o.total);
  in_range = ground arith;
}

contains-none : (l : List ℕ) (a : ℕ) → count a l ≡ 0 → contains l a ≡ false
contains-none [] a h = refl
contains-none (x ∷ l) a h = ground (arith, h, contains-none l a)

-- From a tier whose addresses handed out are each in use or recycled, once, and while addresses last,
-- an allocation hands out an address that no block in use has, and every
-- address handed out so far is then in use or recycled, once.
pub allocate-Owns :
    (s : StorageTierState) (live : List ℕ)
    → Owns s live
    → s.next_address + 1 < u64_mod
    → (contains live (allocate s).0 ≡ false) × Owns (allocate s).1 ((allocate s).0 ∷ live)
unfolding allocate
allocate-Owns s live o h =
    let t = take_address-Owns s live s.recycled_addresses refl o h in
    (fresh (allocate s).0 (allocate s).1 t, t)
  where
    fresh : (a : ℕ) (t : StorageTierState) → Owns t (a ∷ live) → contains live a ≡ false
    fresh a t o = contains-none live a (ground (arith, o.split a))

-- From a tier whose addresses handed out are each in use or recycled, once, releasing an address that
-- is in use keeps them so.
pub release-Owns :
    (s : StorageTierState) (live : List ℕ) (a : ℕ)
    → Owns s live
    → contains live a ≡ true
    → Owns (release a s) (remove a live)
unfolding release
release-Owns s live a o h = record {
  split = λ b. ground (arith, o.split b, count-remove b a live);
  counted = ground (arith, o.counted, o.total, length-remove a live, sub64_lem s.used_blocks 1);
  total = ground (arith, o.total, length-remove a live);
  peak =
      ground (arith, o.peak, o.counted, o.total, length-remove a live, sub64_lem s.used_blocks 1);
  in_range = o.in_range;
}
