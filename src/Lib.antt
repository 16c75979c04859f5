-- ===== src/Lib.antt =====
-- DWPDSim replays requests for prefix blocks against a memory and two flash tiers. This library
-- models its C++ core, cpp/include/dwpdsim and cpp/src.
--
-- The parts and their files:
--   Types           cpp/include/dwpdsim/types.hpp and config.hpp: the shared structs and enums.
--   Storage         cpp/src/storage.cpp: the block allocator of a tier. Storage/Addresses says who
--                   owns which address.
--   RadixTree       cpp/src/radix_tree.cpp: the tree in a vector of records; RadixTree/Walks has the
--                   loops over it, RadixTree/Updates what takes nodes out. RadixTree/Slots and
--                   RadixTree/Creation relate nodes and slots.
--   Chain           lemmas on doubly linked lists.
--   MemoryPolicy    cpp/include/dwpdsim/policies/memory/memory_policy.hpp: the interface of a memory
--                   policy. MemoryPolicy/Baseline is baseline_memory_lru_policy.cpp, a linked list in
--                   a hash map; Baseline/Order, Detaching and Recency relate it to a list, Scans and
--                   Victims are about the segment that it evicts. MemoryPolicy/Indexed is
--                   indexed_memory_lru_policy.cpp, its groups of segments as ordered sets; Indexed/Hooks
--                   has the hooks, Indexed/Searches the search by workers. Indexed/Members relates the
--                   segments to the residents; Indexed/Blocks, Merging and Splitting follow them through
--                   the hooks.
--   Metrics, Trace  cpp/src/metrics.cpp and cpp/src/trace_writer.cpp.
--   StorageView     cpp/src/policies/storage/storage_policy.cpp: what a storage policy sees.
--   StoragePolicy   storage_policy.hpp: the interface of a storage policy. StoragePolicy/Entries and
--                   StoragePolicy/Searches and StoragePolicy/Fused are storage_policy_state.cpp,
--                   StoragePolicy/Fixed is baseline_fixed_lru_storage_policy.cpp,
--                   StoragePolicy/Ratio is baseline_ratio_lru_storage_policy.cpp,
--                   StoragePolicy/Affinity is wear_share_affinity_storage_policy.cpp and
--                   StoragePolicy/RoundRobin is wear_share_round_robin_storage_policy.cpp.
--                   RoundRobin/Index and Counted relate its index to the candidates and to the tree.
--                   StoragePolicy/Placements says where the ratio and affinity policies put dumps.
--   ShadowFtl       cpp/src/shadow_ftl.cpp: the pools of flash blocks in ShadowFtl/Pages, the device in
--                   ShadowFtl/Device, Construction and Windows; ShadowFtl/Attached gives it to the
--                   simulator. Below ShadowFtl/Pages, Soundness says
--                   when mappings and slots agree, and a file for each step keeps it so.
--   Floats          the arithmetic of double and long double, a parameter.
--   Simulator       cpp/src/simulator.cpp, a file for each group of handlers: Pruning, Trimming,
--                   Transfers and Relocation, Capacity, Dumping and Memory, Access, Timeline,
--                   Requests. Simulator/Balance and Simulator/Books carry the agreement of its
--                   counters through every handler, Simulator/Histories through whole runs;
--                   Simulator/Admission is about the guards, Simulator/Config about
--                   the configuration.
--   Base, Tests     shared helpers; concrete runs.
--
-- How they interact: the simulator owns the tree, the tiers, the metrics and the trace, and calls a
-- memory policy, a storage policy and a shadow device. These three are parameters, given by the
-- records MemoryPolicy, StoragePolicy and ShadowDevice of operations on a state; nothing is assumed
-- of them. The baseline and indexed memory policies and the fixed, ratio, affinity and round-robin
-- storage policies, and the shadow device, are instances.
--
-- How code becomes definitions: a method that changes an object takes the object's state last and
-- returns the new one. An exception, undefined behaviour and the end of fuel are errors of Result,
-- and after an error no state is kept. Counters are natural numbers that wrap at 2^64, slots and
-- child counts at 2^32. A hash map is a function to Option, std::map a list of pairs by rising key,
-- and the vectors of the tree are a size with a function of cells.
--
-- Fuel: a climb or descent in the tree has as many rounds as the vector has cells, since no slot
-- repeats on a path; the search below a node pops each cell once; a climb that prunes removes a node
-- in each round; a scan of the recency list has as many rounds as the tree has cells, since each
-- block on the list is a node; the periodic events before time t are t for each of the two timers,
-- since a timer moves by a nanosecond at least; the loop that makes room gives a block back in each
-- round, so twice the blocks in use and a few rounds more are given; a flash pool collects as often as
-- it has slots, and once more, which is shown to be enough. That the rounds of the timers and of the
-- loop that gives blocks back are enough is
-- not shown for arbitrary policies: a policy that names actions without end would not stop the
-- source either.
--
-- Workers: the threads of the indexed memory policy read the groups while the caller waits, and each
-- writes a result of its own. So the results do not depend on how the threads interleave, and a round
-- of workers is the list of their results.
--
-- Not modelled: timers and profiling, the diagnostics file, the controller's CSV rows, the text of
-- the trace and the files; statistics and, but for the indexed memory policy, work counters of the
-- policies; the context memory policy, and the balanced and adaptive storage policies, which the
-- interfaces stand for; the bindings and the Python package.
pub mod Base
pub mod Types
pub mod Storage
pub mod RadixTree
pub mod Chain
pub mod MemoryPolicy
pub mod Metrics
pub mod Trace
pub mod StorageView
pub mod StoragePolicy
pub mod Simulator
pub mod Floats
pub mod ShadowFtl
pub mod Tests
