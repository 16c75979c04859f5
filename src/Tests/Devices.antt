-- ===== src/Tests/Devices.antt =====
-- A small shadow device: pages of a byte, two pages in a block.
use dwpdsim.Base.{
  has_key, ℕ, ◌≡◌, ◌<◌, ◌+◌, ◌-◌, ◌*◌, ◌/◌, refl, arith, true, [], ◌∷◌, none, some, Result, is_ok,
  the, the_lem, add32, Returns, ReturnsOr, ReturnsOr-the, runtime_error, ltb, leb, if◌then◌else◌,
  ◌==◌, ◌>>=◌, add64, sub64,
}
use dwpdsim.Types.{PerTier, slc, StorageLocation, write_op}
use dwpdsim.Floats.{Floats, Machine}
use dwpdsim.ShadowFtl.{Pool}
use dwpdsim.ShadowFtl.Device.{ShadowConfig, ShadowFtl, consume, record_loss, ghost_prefix}
use dwpdsim.ShadowFtl.Construction.{
  sized_pool, new_device, is_bad_config, new_tier_pool, new_pool, asked_blocks,
}
use dwpdsim.ShadowFtl.Pages.{
  trim, write_page, collect, make_room, collect_rounds, find_victim, map_page, drop_slot,
  take_block, place, append_host, allocate_host,
}
use dwpdsim.ShadowFtl.Pages.Soundness.{IsSound, nothing_stale}
use dwpdsim.ShadowFtl.Pages.Trimming.{trim-IsSound}
use dwpdsim.ShadowFtl.Pages.Moving.{is_mapped}
use dwpdsim.ShadowFtl.Pages.Victims.{IsVictim, find_victim-IsVictim}
use dwpdsim.ShadowFtl.Pages.Collecting.{Collected, collect-Collected}
use dwpdsim.ShadowFtl.Pages.Allocating.{make_room-terminates}
use dwpdsim.ShadowFtl.Pages.Writing.{Written, write_page-Written}
use dwpdsim.ShadowFtl.Pages.Fresh.{IsSoundDevice, sized_pool-IsSound, new_device-IsSoundDevice}
use dwpdsim.ShadowFtl.Consuming.{Agrees, consume-Agrees}
use dwpdsim.ShadowFtl.Ghosts.{GhostsAgree, unexpired, record_loss-GhostsAgree}
use dwpdsim.ShadowFtl.Prefixes.{EndsGhosts, ghost_prefix-EndsGhosts}
use dwpdsim.Tests.Scenario.{small_config}

-- Natural numbers in place of the machine's formats.
abbrev whole : Floats ℕ
whole = record {
  of_nat = λ n. n;
  to_nat = λ n. n;
  literal = λ n d. n / d;
  plus = λ a b. a + b;
  minus = λ a b. a - b;
  times = λ a b. a * b;
  over = λ a b. a / b;
  is_less = λ a b. ltb a b;
  is_at_most = λ a b. leb a b;
  is_finite = λ a. true;
  ceil = λ a. a;
}

abbrev machine : Machine
machine = record { Double = ℕ; LongDouble = ℕ; double = whole; long_double = whole; widen = λ a. a }

abbrev config : ShadowConfig ℕ
config = record {
  online_tuning = true;
  feedback_period_ns = 10;
  page_bytes = 1;
  pages_per_block = 2;
  overprovisioning = 0;
  nominal_bytes = record { slc_part = 0; tlc_part = 0 };
  endurance = record { slc_part = 1; tlc_part = 1 };
  reuse_loss_budget = 0;
  min_reuse_blocks = 1;
  reuse_ema_scale_blocks = 1;
  physical_blocks = record { slc_part = 0; tlc_part = 0 };
}

abbrev fresh : Pool
fresh = sized_pool machine config 4 1 3

fresh-IsSound : IsSound nothing_stale fresh
fresh-IsSound = sized_pool-IsSound machine config 4 1 3 (omega arith) (omega arith)

-- The writing of a page twice, which leaves a full block without a live page but one.
abbrev once : Result Pool
once = write_page 0 5 1 fresh

once_ok : is_ok once ≡ true
unfolding write_page append_host trim place allocate_host make_room take_block ◌>>=◌ add64 sub64
once_ok = refl

once-Written : Written 0 5 fresh (the once once_ok)
once-Written =
    ReturnsOr-the (Written 0 5 fresh) runtime_error once
      (write_page-Written 0 5 1 fresh fresh-IsSound (omega arith)) once_ok

abbrev twice : Result Pool
twice = write_page 0 5 2 (the once once_ok)

one_stream : 0 < (the once once_ok).open_blocks.size
one_stream = ground (arith, once-Written.count)

write_page-Written_example : ReturnsOr runtime_error twice (Written 0 5 (the once once_ok))
write_page-Written_example =
    write_page-Written 0 5 2 (the once once_ok) once-Written.sound one_stream

twice_ok : is_ok twice ≡ true
unfolding write_page append_host trim drop_slot place allocate_host make_room take_block ◌>>=◌ add64
    sub64 once_ok
twice_ok = refl

abbrev rewritten : Pool
rewritten = the twice twice_ok

rewritten-Written : Written 0 5 (the once once_ok) rewritten
rewritten-Written =
    ReturnsOr-the (Written 0 5 (the once once_ok)) runtime_error twice
      (write_page-Written 0 5 2 (the once once_ok) once-Written.sound one_stream) twice_ok

trim-IsSound_example : Returns (trim 0 5 rewritten) (λ r.
    IsSound nothing_stale r
    × (((s q : ℕ) → r.mapping s q ≡ map_page 0 5 none rewritten.mapping s q)
        × (r.open_blocks ≡ rewritten.open_blocks)))
trim-IsSound_example = trim-IsSound 0 5 rewritten rewritten-Written.sound

collect-Collected_example : Returns (collect 3 rewritten) (Collected rewritten)
collect-Collected_example = collect-Collected 3 rewritten rewritten-Written.sound

find_victim-IsVictim_example : IsVictim 2 3 rewritten.blocks.cell (find_victim 2 3 rewritten.blocks)
find_victim-IsVictim_example = find_victim-IsVictim 2 3 rewritten.blocks

one_stream_still : 0 < rewritten.open_blocks.size
one_stream_still = ground (arith, rewritten-Written.count, one_stream)

make_room-terminates_example : Returns (make_room (collect_rounds rewritten) 0 3 rewritten) (λ out.
    IsSound nothing_stale out.1
    × ((t q : ℕ) → is_mapped (out.1.mapping t q) ≡ is_mapped (rewritten.mapping t q)))
make_room-terminates_example =
    make_room-terminates 0 3 rewritten rewritten-Written.sound one_stream_still

abbrev one_each : PerTier ℕ
one_each = record { slc_part = 1; tlc_part = 1 }

abbrev device : ShadowFtl ℕ
device = record {
  config = config;
  pages_per_kv_block = 2;
  pools = record { slc_part = fresh; tlc_part = fresh };
  last_host = record { slc_part = 0; tlc_part = 0 };
  last_nand = record { slc_part = 0; tlc_part = 0 };
  wa = record { slc_part = 1; tlc_part = 1 };
  ghosts = λ h. none;
  expirations = [];
  hits = 0;
  ghost_misses = 0;
  total_ghost_misses = 0;
}

device-IsSoundDevice : IsSoundDevice one_each device
device-IsSoundDevice = record {
  slc_sound = (fresh-IsSound, refl);
  tlc_sound = (fresh-IsSound, refl);
}

abbrev first_block : StorageLocation
first_block = record { tier = slc; stream_id = 0; block_address = 1 }

consume-Agrees_example :
    ReturnsOr runtime_error
      (consume write_op first_block 1 device)
      (Agrees write_op first_block one_each device)
consume-Agrees_example =
    consume-Agrees write_op first_block 1 one_each device (omega arith) device-IsSoundDevice

-- Hundredths in place of the machine's formats.
abbrev hundredths : Floats ℕ
hundredths = record {
  of_nat = λ n. n * 100;
  to_nat = λ n. n / 100;
  literal = λ n d. n * 100 / d;
  plus = λ a b. a + b;
  minus = λ a b. a - b;
  times = λ a b. a * b / 100;
  over = λ a b. a * 100 / b;
  is_less = λ a b. ltb a b;
  is_at_most = λ a b. leb a b;
  is_finite = λ a. true;
  ceil = λ a. (a + 99) / 100 * 100;
}

abbrev decimal : Machine
decimal = record {
  Double = ℕ;
  LongDouble = ℕ;
  double = hundredths;
  long_double = hundredths;
  widen = λ a. a;
}

-- Pages of 4096 bytes, two pages in a block, a quarter of the blocks spare.
abbrev spare_config : ShadowConfig ℕ
spare_config = record config {
  page_bytes = 4096;
  overprovisioning = 25;
  endurance = record { slc_part = 100; tlc_part = 100 };
}

abbrev made : Result (ShadowFtl ℕ)
made = new_device decimal small_config spare_config

made_ok : is_ok made ≡ true
unfolding new_device is_bad_config new_tier_pool new_pool asked_blocks ◌>>=◌ add32 sub64
made_ok = refl

new_device-IsSoundDevice_example :
    IsSoundDevice (record { slc_part = 1; tlc_part = 2 }) (the made made_ok)
new_device-IsSoundDevice_example =
    new_device-IsSoundDevice decimal small_config spare_config (the made made_ok) (omega arith)
      (the_lem made made_ok)

no_ghosts-GhostsAgree : GhostsAgree device
unfolding has_key
no_ghosts-GhostsAgree = record { ordered = tt; same = λ t h. refl }

record_loss-GhostsAgree_example :
    GhostsAgree (record_loss 7 100 device)
    × ((j : ℕ)
        → (record_loss 7 100 device).ghosts j ≡ (if j == 7 then some 100 else unexpired 100 none))
record_loss-GhostsAgree_example =
    record_loss-GhostsAgree 7 100 device (omega arith) refl no_ghosts-GhostsAgree

abbrev haunted : ShadowFtl ℕ
haunted = record_loss 7 100 device

haunted-GhostsAgree : GhostsAgree haunted
haunted-GhostsAgree =
    (record_loss-GhostsAgree 7 100 device (omega arith) refl no_ghosts-GhostsAgree).0

ghost_prefix-EndsGhosts_example :
    EndsGhosts
      (λ h. unexpired 200 (haunted.ghosts h))
      (3 ∷ 7 ∷ 9 ∷ [])
      (ghost_prefix (3 ∷ 7 ∷ 9 ∷ []) 200 haunted).0
    × (GhostsAgree (ghost_prefix (3 ∷ 7 ∷ 9 ∷ []) 200 haunted).1
        × ((h : ℕ)
            → (ghost_prefix (3 ∷ 7 ∷ 9 ∷ []) 200 haunted).1.ghosts h
              ≡ unexpired 200 (haunted.ghosts h)))
ghost_prefix-EndsGhosts_example =
    ghost_prefix-EndsGhosts (3 ∷ 7 ∷ 9 ∷ []) 200 haunted (omega arith) haunted-GhostsAgree
