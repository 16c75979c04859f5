-- ===== src/Simulator/Books.antt =====
-- The agreement between the counters of cpp/src/metrics.cpp and the state that they count, as every
-- operation of cpp/src/simulator.cpp keeps it.
pub mod Pruning
pub mod Relocation
pub mod Capacity
pub mod Memory
pub mod Access
pub mod Requests
use dwpdsim.Base.{
  ℕ, suc, zero, Bool, true, false, List, [], ◌∷◌, Option, none, some, Result, ok, ◌>>=◌, ◌≡◌, refl,
  ◌+◌, ◌%◌, ◌<◌, ◌≤◌, arith, add64, sub64, u64_mod, length, if◌then◌else◌, Ensures, returns, fails,
  Ensures-bind, Ensures-after, for_each, Ensures-for_each, Bool-cases, inl, inr, Ensures-if,
}
use dwpdsim.Types.{
  NodeId, Node, TimestampNs, Operation, StorageTier, slc, tlc, StorageLocation, TraceReason,
  PerTier, at_tier, change_tier, tier_eq,
}
use dwpdsim.Storage.{StorageTierState, StorageState, allocate, release, record_unaddressed_write}
use dwpdsim.Metrics
use dwpdsim.Metrics.{Metrics, storage_written, storage_removed, memory_inserted, memory_removed}
use dwpdsim.MemoryPolicy.{MemoryMutation}
use dwpdsim.StoragePolicy.{StorageMutation}
use dwpdsim.Trace.{TraceContext, TraceWriter, Row, emit}
use dwpdsim.Simulator.Balance.{Balanced}
use dwpdsim.Simulator.{
  Parts, Simulator, view, on_node, on_metrics, count_io, emit_io, notify_memory_commit,
  notify_storage_commit, shadow_loss, stamps,
}

-- Rows are numbered by their places, from 0 and modulo 2^64.
abbrev pub Numbered : ℕ → List Row → Type 0
Numbered n [] = n ≡ 0
Numbered n (r ∷ rs) = (n ≡ (r.sequence + 1) % u64_mod) × Numbered r.sequence rs

-- The requests so far: whether the run is over, which identifiers were asked and the last time.
pub record Past : Type 0 where
  pub closed : Bool
  pub asked : ℕ → Bool
  pub last : Option TimestampNs

-- What an operation starts from: the accesses under way, and the past, which it leaves alone.
pub record Frame : Type 0 where
  pub open_accesses : ℕ
  pub past : Past

-- The counters and the state. `debt t` is the number of blocks of tier `t` that are allocated but not
-- yet counted, and `frame` says how many accesses are under way and what the past was; all is modulo 2^64.
pub record Books (debt : StorageTier → ℕ) (frame : Frame) (storage : StorageState)
    (resident : PerTier ℕ) (memory_used memory_resident : ℕ) (sequence accesses : ℕ)
    (hits_memory hits_slc hits_tlc misses : ℕ) (trace : TraceWriter) (past : Past) : Type 0 where
  pub tiers :
      (t : StorageTier) → (at_tier t storage).used_blocks ≡ (at_tier t resident + debt t) % u64_mod
  pub memory : memory_used ≡ memory_resident
  pub started : sequence ≡ (accesses + frame.open_accesses) % u64_mod
  pub results : accesses ≡ (hits_memory + hits_slc + hits_tlc + misses) % u64_mod
  pub rows : Numbered trace.next_sequence trace.rows
  pub kept : past ≡ frame.past

abbrev pub no_debt : StorageTier → ℕ
no_debt t = 0

module _ {storage : StorageState} {resident : PerTier ℕ} {mu mr sq ac hm hs ht mi : ℕ}
    {w : TraceWriter} {p : Past} {k : Frame} where
  -- Equal debts are interchangeable.
  pub Books-debt :
      (d d' : StorageTier → ℕ)
      → ((t : StorageTier) → d t ≡ d' t)
      → Books d k storage resident mu mr sq ac hm hs ht mi w p
      → Books d' k storage resident mu mr sq ac hm hs ht mi w p
  Books-debt d d' e b = record {
    tiers = λ t. rw (← (e t)) (b.tiers t);
    memory = b.memory;
    started = b.started;
    results = b.results;
    rows = b.rows;
    kept = b.kept;
  }

  -- Only the tiers' part changes.
  pub Books-tiers :
      {d : StorageTier → ℕ} (d' : StorageTier → ℕ) (storage' : StorageState) (resident' : PerTier ℕ)
      → Balanced d' storage' resident'
      → Books d k storage resident mu mr sq ac hm hs ht mi w p
      → Books d' k storage' resident' mu mr sq ac hm hs ht mi w p
  Books-tiers d' storage' resident' c b = record {
    tiers = c;
    memory = b.memory;
    started = b.started;
    results = b.results;
    rows = b.rows;
    kept = b.kept;
  }

  -- Only the memory part changes.
  pub Books-memory :
      {d : StorageTier → ℕ} (mu' mr' : ℕ)
      → mu' ≡ mr'
      → Books d k storage resident mu mr sq ac hm hs ht mi w p
      → Books d k storage resident mu' mr' sq ac hm hs ht mi w p
  Books-memory mu' mr' e b = record {
    tiers = b.tiers;
    memory = e;
    started = b.started;
    results = b.results;
    rows = b.rows;
    kept = b.kept;
  }

module _ (P : Parts) where
  abbrev pub past_of : Simulator P → Past
  past_of s = record { closed = s.finished; asked = s.request_ids; last = s.last_timestamp_ns }

  -- `Books` of a simulator: fields that the ledger does not name may change freely.
  abbrev pub InBooks : (StorageTier → ℕ) → Frame → Simulator P → Type 0
  InBooks debt k s =
      Books debt k s.storage s.metrics.storage_resident_blocks s.memory_used_blocks
        s.metrics.memory_resident_blocks s.next_access_sequence s.metrics.block_access_count
        s.metrics.memory_hits s.metrics.slc_hits s.metrics.tlc_hits s.metrics.global_misses
        s.trace_writer (past_of s)

  -- The steps that leave the ledger alone.
  pub on_node-InBooks :
      (d : StorageTier → ℕ) (k : Frame) (h : NodeId) (f : Node → Node) (s : Simulator P)
      → InBooks d k s
      → Ensures (InBooks d k) (on_node P h f s)
  on_node-InBooks d k h f s b = Ensures-after _ (λ t. returns b)

  pub notify_memory_commit-InBooks :
      (d : StorageTier → ℕ) (k : Frame) (u : MemoryMutation) (s : Simulator P)
      → InBooks d k s
      → Ensures (InBooks d k) (notify_memory_commit P u s)
  unfolding notify_memory_commit
  notify_memory_commit-InBooks d k u s b = Ensures-after _ (λ t. returns b)

  stamp-InBooks :
      (d : StorageTier → ℕ) (k : Frame) (now : ℕ) (h : NodeId) (s : Simulator P)
      → InBooks d k s
      → Ensures
          (InBooks d k)
          (on_node P h (λ n. record n { storage_last_access_timestamp_ns = now }) s)
  stamp-InBooks d k now h s b = on_node-InBooks d k h _ s b

  pub notify_storage_commit-InBooks :
      (d : StorageTier → ℕ) (k : Frame) (u : StorageMutation) (s : Simulator P)
      → InBooks d k s
      → Ensures (InBooks d k) (notify_storage_commit P u s)
  unfolding notify_storage_commit
  notify_storage_commit-InBooks d k u s b = Ensures-if s.config.infinite_storage (returns b) (
      Ensures-bind
        (Ensures-if (stamps u.kind)
          (Ensures-for_each (InBooks d k) _ (λ h t b1. stamp-InBooks d k u.timestamp_ns h t b1)
            u.nodes s b)
          (returns b))
        (λ s1 b1. Ensures-after _ (λ t. returns b1)))

  record_io-InBooks :
      (d : StorageTier → ℕ) (k : Frame) (o : Operation) (t : StorageTier) (stream : ℕ) (host : Bool)
      (s : Simulator P)
      → InBooks d k s
      → Ensures
          (λ m. InBooks d k (record s { metrics = m }))
          (Metrics.record_io o t stream host s.metrics)
  unfolding Metrics.record_io
  record_io-InBooks d k o t stream host s b = Ensures-after _ (λ c. returns b)

  -- Traffic is counted apart from the ledger.
  pub count_io-InBooks :
      (d : StorageTier → ℕ) (k : Frame) (o : Operation) (t : StorageTier) (stream : ℕ) (host : Bool)
      (s : Simulator P)
      → InBooks d k s
      → Ensures (InBooks d k) (count_io P o t stream host s)
  count_io-InBooks d k o t stream host s b =
      Ensures-bind (record_io-InBooks d k o t stream host s b) (λ m b1. returns b1)

  -- A new row has the next number.
  pub emit_io-InBooks :
      (d : StorageTier → ℕ) (k : Frame) (c : TraceContext) (h : NodeId) (o : Operation) (n : Node)
      (l : StorageLocation) (r : TraceReason) (move depends : Option ℕ) (s : Simulator P)
      → InBooks d k s
      → Ensures (λ out. InBooks d k out.1) (emit_io P c h o n l r move depends s)
  unfolding emit_io emit add64
  emit_io-InBooks d k c h o n l r move depends s b = Ensures-after _ (λ t. returns (record {
    tiers = b.tiers;
    memory = b.memory;
    started = b.started;
    results = b.results;
    rows = (refl, b.rows);
    kept = b.kept;
  }))

  pub shadow_loss-InBooks :
      (d : StorageTier → ℕ) (k : Frame) (h : NodeId) (now : ℕ) (s : Simulator P)
      → InBooks d k s
      → InBooks d k (shadow_loss P h now s)
  shadow_loss-InBooks d k h now s b = b
