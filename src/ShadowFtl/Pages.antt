-- ===== src/ShadowFtl/Pages.antt =====
-- The class `ShadowFtl::Pool` of cpp/src/shadow_ftl.cpp. `append` and `allocate` call each other
-- through `collect`: a copy of the collector passes `gc`, for which `allocate` does not collect, and
-- is `append_gc` here; a write of the host is `append_host`.
pub mod Soundness
pub mod Trimming
pub mod Placing
pub mod Opening
pub mod Moving
pub mod Emptying
pub mod Victims
pub mod Collecting
pub mod Allocating
pub mod Writing
pub mod Fresh
use dwpdsim.Base.{
  ℕ, suc, zero, Bool, true, false, not, ◌&&◌, ◌||◌, List, [], ◌∷◌, Option, none, some, Result, ok,
  err, runtime_error, out_of_range, out_of_fuel, ◌>>=◌, or_fail, Vector, read, write, modify,
  push_back, add64, sub64, ltb, leb, ◌==◌, if◌then◌else◌, Key, before, ◌*◌,
}
use dwpdsim.Types.{TimestampNs}
use dwpdsim.ShadowFtl.{Slot, FlashBlock, Location, Pool}

-- `mapping_[key] = l` and `mapping_.erase(key)`.
abbrev pub map_page : ℕ → ℕ → Option Location → (ℕ → ℕ → Option Location) → ℕ → ℕ → Option Location
map_page stream page l m s q = if s == stream && q == page then l else m s q

abbrev pub invalidate : Slot → Slot
invalidate x = record x { valid = false }

-- A slot of a block is marked and no longer live.
unfoldable pub drop_slot : ℕ → FlashBlock → Result FlashBlock
drop_slot slot b = do
  v ← modify b.slots slot invalidate
  ok (record b { slots = v; live = sub64 b.live 1 })

unfoldable pub trim : ℕ → ℕ → Pool → Result Pool
unfolding drop_slot
trim stream page p = elim (p.mapping stream page) [
  | none ↦ ok p
  | some l ↦ do
    b ← read p.blocks l.block
    c ← drop_slot l.slot b
    v ← write p.blocks l.block c
    ok (record p { blocks = v; mapping = map_page stream page none p.mapping })
]

abbrev pub no_slots : Vector Slot
no_slots = record { size = 0; cell = λ i. record { page = 0; stream = 0; valid = false } }

-- `free_.push`: a priority queue keeps equal entries.
unfoldable pub push_free : Key → List Key → List Key
push_free k [] = k ∷ []
push_free k (x ∷ xs) = if before k x then k ∷ x ∷ xs else x ∷ push_free k xs

abbrev pub opened : ℕ → TimestampNs → FlashBlock → FlashBlock
opened stream now b = record b {
  slots = no_slots;
  live = 0;
  stream = stream;
  active = true;
  last_write = now;
}

-- The end of `allocate`: the first free block becomes the stream's.
unfoldable pub take_block : ℕ → TimestampNs → Pool → Result (ℕ × Pool)
take_block stream now p = elim p.free_blocks [
  | [] ↦ err runtime_error
  | f ∷ rest ↦ do
    v ← modify p.blocks f.1 (opened stream now)
    o ← write p.open_blocks stream (some f.1)
    ok (
      f.1,
      record p {
        free_blocks = rest;
        blocks = v;
        active_blocks = add64 p.active_blocks 1;
        open_blocks = o;
      },
    )
]

abbrev pub appended : ℕ → ℕ → TimestampNs → FlashBlock → FlashBlock
appended stream page now b = record b {
  slots = push_back b.slots (record { page = page; stream = stream; valid = true });
  live = add64 b.live 1;
  last_write = now;
}

-- The rest of `append`, once the block is known.
unfoldable pub place : ℕ → ℕ → ℕ → TimestampNs → Bool → Pool → Result (Location × Pool)
place id stream page now gc p = do
  b ← read p.blocks id
  let c = appended stream page now b
  v ← write p.blocks id c
  o ←
      if c.slots.size == p.pages_per_block
      then write p.open_blocks stream none
      else ok p.open_blocks
  ok (
    record { block = id; slot = b.slots.size },
    record p {
      blocks = v;
      open_blocks = o;
      host_pages = if gc then p.host_pages else add64 p.host_pages 1;
      gc_pages = if gc then add64 p.gc_pages 1 else p.gc_pages;
    },
  )

-- `append` for the collector.
unfoldable pub append_gc : ℕ → ℕ → TimestampNs → Pool → Result (Location × Pool)
unfolding take_block place
append_gc stream page now p = do
  o ← read p.open_blocks stream
  out ← elim o [ some id ↦ ok (id, p) | none ↦ take_block stream now p ]
  place out.0 stream page now true out.1

-- Full blocks with a page that is not live.
abbrev pub is_collectable : ℕ → FlashBlock → Bool
is_collectable pages b = b.active && (b.slots.size == pages && not (b.live == pages))

-- `std::tie` of the live pages, the last write, the erases and the block's number.
abbrev pub is_better : ℕ → FlashBlock → ℕ → FlashBlock → Bool
is_better i a j b =
    ltb a.live b.live
    || (a.live == b.live
        && (ltb a.last_write b.last_write
            || (a.last_write == b.last_write
                && (ltb a.erases b.erases || (a.erases == b.erases && ltb i j)))))

abbrev pub choose : ℕ → Vector FlashBlock → ℕ → Option ℕ → Option ℕ
choose pages v i none = if is_collectable pages (v.cell i) then some i else none
choose pages v i (some j) =
    if is_collectable pages (v.cell i) && is_better i (v.cell i) j (v.cell j)
    then some i
    else some j

-- The scan of the first `n` blocks.
unfoldable pub find_victim : ℕ → ℕ → Vector FlashBlock → Option ℕ
find_victim pages zero v = none
find_victim pages (suc n) v = choose pages v n (find_victim pages n v)

-- The live pages of the victim from slot `i` on are appended elsewhere. `mapping_.at` throws for a
-- page that is not mapped.
unfoldable pub move_slot : ℕ → ℕ → TimestampNs → Pool → Result Pool
unfolding append_gc
move_slot victim i now p = do
  b ← read p.blocks victim
  x ← read b.slots i
  if x.valid
      then (do
        out ← append_gc x.stream x.page now p
        old ← or_fail (out.1.mapping x.stream x.page) out_of_range
        ok (record out.1 { mapping = map_page x.stream x.page (some out.0) out.1.mapping }))
      else ok p

unfoldable pub move_slots : ℕ → ℕ → ℕ → TimestampNs → Pool → Result Pool
unfolding move_slot
move_slots zero i victim now p = ok p
move_slots (suc n) i victim now p =
    move_slot victim i now p >>= λ q. move_slots n (suc i) victim now q

-- Whether the live pages of the victim have room when no block is free.
unfoldable pub has_room : FlashBlock → Pool → Result Bool
has_room b p = do
  o ← read p.open_blocks b.stream
  elim p.free_blocks [
    | f ∷ rest ↦ ok true
    | [] ↦ if b.live == 0 then ok true else elim o [
      | none ↦ ok false
      | some id ↦ do
        f ← read p.blocks id
        ok (not (ltb (sub64 p.pages_per_block f.slots.size) b.live))
    ]
  ]

abbrev pub erased : FlashBlock → FlashBlock
erased b = record b { slots = no_slots; live = 0; active = false; erases = add64 b.erases 1 }

unfoldable pub erase_block : ℕ → Pool → Result Pool
erase_block victim p = do
  b ← read p.blocks victim
  v ← write p.blocks victim (erased b)
  ok (record p {
    blocks = v;
    erase_count = add64 p.erase_count 1;
    active_blocks = sub64 p.active_blocks 1;
    free_blocks = push_free (add64 b.erases 1, victim) p.free_blocks;
  })

unfoldable pub collect : TimestampNs → Pool → Result (Bool × Pool)
unfolding find_victim has_room move_slots erase_block
collect now p = elim (find_victim p.pages_per_block p.blocks.size p.blocks) [
  | none ↦ ok (false, p)
  | some victim ↦ do
    b ← read p.blocks victim
    room ← has_room b p
    if room
        then (do q ← move_slots b.slots.size 0 victim now p; r ← erase_block victim q; ok (true, r))
        else ok (false, p)
]

-- The loop of `allocate`: blocks are collected while too many are active, until the stream has a
-- block again.
unfoldable pub make_room : ℕ → ℕ → TimestampNs → Pool → Result (Option ℕ × Pool)
unfolding collect
make_room zero stream now p =
    if leb p.active_limit p.active_blocks then err out_of_fuel else ok (none, p)
make_room (suc n) stream now p = elim (leb p.active_limit p.active_blocks) [
  | false ↦ ok (none, p)
  | true ↦ collect now p >>= λ out. elim out.0 [
    | false ↦ ok (none, out.1)
    | true ↦ read out.1.open_blocks stream >>= λ o. elim o [
      | some id ↦ ok (some id, out.1)
      | none ↦ make_room n stream now out.1
    ]
  ]
]

-- Every round erases a page that is not live, and no round makes one.
abbrev pub collect_rounds : Pool → ℕ
collect_rounds p = suc (p.blocks.size * p.pages_per_block)

unfoldable pub allocate_host : ℕ → TimestampNs → Pool → Result (ℕ × Pool)
unfolding make_room collect take_block
allocate_host stream now p = do
  out ← make_room (collect_rounds p) stream now p
  elim out.0 [
    | some id ↦ ok (id, out.1)
    | none ↦ elim out.1.free_blocks [
      | f ∷ rest ↦ take_block stream now out.1
      | [] ↦ do again ← collect now out.1; take_block stream now again.1
    ]
  ]

-- `append` for a write of the host.
unfoldable pub append_host : ℕ → ℕ → TimestampNs → Pool → Result (Location × Pool)
unfolding allocate_host place
append_host stream page now p = do
  o ← read p.open_blocks stream
  out ← elim o [ some id ↦ ok (id, p) | none ↦ allocate_host stream now p ]
  place out.0 stream page now false out.1

unfoldable pub write_page : ℕ → ℕ → TimestampNs → Pool → Result Pool
unfolding trim append_host
write_page stream page now p = do
  p1 ← trim stream page p
  out ← append_host stream page now p1
  ok (record out.1 { mapping = map_page stream page (some out.0) out.1.mapping })
