-- ===== src/ShadowFtl/Pages/Soundness.antt =====
-- When the pages that a pool maps and the slots of its blocks agree.
use dwpdsim.Base.{
  Bool-cases, inl, inr, ==true→eq, ℕ, zero, suc, ◌≤◌, ◌<◌, ◌+◌, ◌-◌, ◌≡◌, refl, Bool, true, false,
  List, [], ◌∷◌, Option, none, some, Key, Distinct, contains, arith, update, ◌==◌, if◌then◌else◌,
  u64_mod,
}
use dwpdsim.ShadowFtl.{Slot, FlashBlock, Location, Pool}
use dwpdsim.ShadowFtl.Pages.{invalidate}

-- How many of the first `n` slots are valid.
abbrev pub valid_count : ℕ → (ℕ → Slot) → ℕ
valid_count zero c = 0
valid_count (suc n) c = if (c n).valid then suc (valid_count n c) else valid_count n c

pub valid_count-le : (n : ℕ) (c : ℕ → Slot) → valid_count n c ≤ n
valid_count-le zero c = omega arith
valid_count-le (suc n) c = ground (arith, valid_count-le n c)

pub valid_count-at :
    (n k : ℕ) (c : ℕ → Slot) → k < n → (c k).valid ≡ true → suc (valid_count k c) ≤ valid_count n c
valid_count-at zero k c h v = absurd (omega arith)
valid_count-at (suc n) k c h v = elim (Bool-cases (k == n)) [
  | inl e ↦ rw (==true→eq k n e) (ground (arith, e, v))
  | inr e ↦ ground (arith, e, h, valid_count-at n k c)
]

pub valid_count-beyond :
    (n i : ℕ) (c : ℕ → Slot) (x : Slot) → n ≤ i → valid_count n (update c i x) ≡ valid_count n c
valid_count-beyond zero i c x h = refl
valid_count-beyond (suc n) i c x h = ground (arith, h, valid_count-beyond n i c x)

pub valid_count-invalidate :
    (n i : ℕ) (c : ℕ → Slot)
    → i < n
    → (c i).valid ≡ true
    → suc (valid_count n (update c i (invalidate (c i)))) ≡ valid_count n c
valid_count-invalidate zero i c h v = absurd (omega arith)
valid_count-invalidate (suc n) i c h v =
    ground (arith, h, v, valid_count-invalidate n i c, valid_count-beyond n i c (invalidate (c i)))

abbrev pub slot_of : (ℕ → FlashBlock) → ℕ → ℕ → Slot
slot_of c b i = (c b).slots.cell i

abbrev pub fill_of : (ℕ → FlashBlock) → ℕ → ℕ
fill_of c b = (c b).slots.size

abbrev pub ids : List Key → List ℕ
ids [] = []
ids (k ∷ ks) = k.1 ∷ ids ks

-- The slot at a location holds a page and was not moved. While the collector empties a block, the
-- slots that it has moved are stale.
pub record HoldsPage (stale : ℕ → ℕ → Bool) (size : ℕ) (c : ℕ → FlashBlock) (s q : ℕ) (l : Location)
    : Type 0 where
  pub block_in : l.block < size
  pub slot_in : l.slot < fill_of c l.block
  pub same_page : (slot_of c l.block l.slot).page ≡ q
  pub same_stream : (slot_of c l.block l.slot).stream ≡ s
  pub is_valid : (slot_of c l.block l.slot).valid ≡ true
  pub not_stale : stale l.block l.slot ≡ false

-- The block that a stream appends to.
pub record IsFrontier (pages size : ℕ) (c : ℕ → FlashBlock) (s id : ℕ) : Type 0 where
  pub block_in : id < size
  pub is_active : (c id).active ≡ true
  pub of_stream : (c id).stream ≡ s
  pub not_full : fill_of c id < pages

-- The agreement of the fields of a pool; its counters have no part in it.
pub record Agreement (stale : ℕ → ℕ → Bool) (pages size : ℕ) (c : ℕ → FlashBlock) (count : ℕ)
    (opens : ℕ → Option ℕ) (free : List ℕ) (mapping : ℕ → ℕ → Option Location) : Type 0 where
  pub mapped : (s q : ℕ) (l : Location) → mapping s q ≡ some l → HoldsPage stale size c s q l
  pub backed :
      (b i : ℕ)
      → b < size
      → i < fill_of c b
      → (slot_of c b i).valid ≡ true
      → stale b i ≡ false
      → mapping (slot_of c b i).stream (slot_of c b i).page ≡ some (record { block = b; slot = i })
  pub live : (b : ℕ) → b < size → (c b).live ≡ valid_count (fill_of c b) (c b).slots.cell
  pub bounded : (b : ℕ) → b < size → fill_of c b ≤ pages
  pub streams : (b i : ℕ) → b < size → i < fill_of c b → (slot_of c b i).stream ≡ (c b).stream
  pub stream_in : (b : ℕ) → b < size → (c b).active ≡ true → (c b).stream < count
  pub idle : (b : ℕ) → b < size → (c b).active ≡ false → fill_of c b ≡ 0
  pub frontier : (s id : ℕ) → opens s ≡ some id → IsFrontier pages size c s id
  pub free_in : (k : ℕ) → contains free k ≡ true → k < size
  pub free_idle : (k : ℕ) → contains free k ≡ true → (c k).active ≡ false
  pub free_distinct : Distinct free
  pub paged : 0 < pages
  pub small : pages < u64_mod

abbrev pub IsSound : (ℕ → ℕ → Bool) → Pool → Type 0
IsSound stale p =
    Agreement stale p.pages_per_block p.blocks.size p.blocks.cell p.open_blocks.size
      p.open_blocks.cell (ids p.free_blocks) p.mapping

abbrev pub nothing_stale : ℕ → ℕ → Bool
nothing_stale b i = false

-- How many pages of a stream can be appended without collecting.
abbrev pub room_in : ℕ → (ℕ → FlashBlock) → Option ℕ → ℕ
room_in pages c none = 0
room_in pages c (some id) = pages - fill_of c id

abbrev pub pages_in : ℕ → List Key → ℕ
pages_in pages [] = 0
pages_in pages (k ∷ ks) = pages + pages_in pages ks

abbrev pub room : ℕ → Pool → ℕ
room s p =
    room_in p.pages_per_block p.blocks.cell (p.open_blocks.cell s)
    + pages_in p.pages_per_block p.free_blocks

-- How many slots of the first `n` blocks hold no live page.
abbrev pub dead : ℕ → (ℕ → FlashBlock) → ℕ
dead zero c = 0
dead (suc n) c = (fill_of c n - (c n).live) + dead n c

dead-beyond :
    (n b : ℕ) (c : ℕ → FlashBlock) (x : FlashBlock) → n ≤ b → dead n (update c b x) ≡ dead n c
dead-beyond zero b c x h = refl
dead-beyond (suc n) b c x h = ground (arith, h, dead-beyond n b c x)

pub dead-update :
    (n b : ℕ) (c : ℕ → FlashBlock) (x : FlashBlock)
    → b < n
    → dead n (update c b x) + (fill_of c b - (c b).live) ≡ dead n c + (x.slots.size - x.live)
dead-update zero b c x h = absurd (omega arith)
dead-update (suc n) b c x h = ground (arith, h, dead-update n b c x, dead-beyond n b c x)
