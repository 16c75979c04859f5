-- ===== src/MemoryPolicy/Indexed/Victims.antt =====
-- The victim of `select_victim`.
use dwpdsim.Base.{
  ℕ, ◌≤◌, ◌<◌, ◌+◌, ◌-◌, ◌≡◌, Bool, true, false, List, Option, none, some, Key, before, Ascends,
  Vector, if◌then◌else◌, ltb,
}
use dwpdsim.Types.{NodeId}
use dwpdsim.MemoryPolicy.Indexed.{IndexedMemoryLruPolicy, MemoryPolicyWork}
use dwpdsim.MemoryPolicy.Indexed.Searches.{is_eligible, groups_from, sample_size}
use dwpdsim.MemoryPolicy.Indexed.Least.{in_group, in_groups}

-- There are groups and workers, and the groups are in order.
pub record AreOrdered (sampled workers : ℕ) (groups : Vector (List Key)) : Type 0 where
  pub has_groups : 0 < groups.size
  pub has_workers : 0 < workers
  pub in_sample : sampled ≤ groups.size
  pub ordered : (i : ℕ) → i < groups.size → Ascends (groups.cell i)

abbrev pub IsIndexed : IndexedMemoryLruPolicy → Type 0
IsIndexed s = AreOrdered s.sampled_groups s.workers s.groups

-- A key of a group whose segment has no block in memory below its endpoint.
abbrev pub is_candidate : IndexedMemoryLruPolicy → ℕ → Key → Bool
is_candidate s i k = in_group (is_eligible s) s.groups i k

abbrev among : IndexedMemoryLruPolicy → List ℕ → Key → Bool
among s selected k = in_groups (is_eligible s) s.groups selected k

-- Every group has a position.
position : (start g size : ℕ) → start < size → g < size → ℕ
position start g size h l = if ltb g start then g + size - start else g - start

pub record Candidate (s : IndexedMemoryLruPolicy) (k : Key) : Type 0 where
  pub group : ℕ
  pub group_in : group < s.groups.size
  pub is_one : is_candidate s group k ≡ true

-- The choice is a candidate; without sampling no candidate of any group comes before it.
abbrev pub IsChosen : IndexedMemoryLruPolicy → Option Key → Type 0
IsChosen s none = ⊥
IsChosen s (some key) =
    Candidate s key
    × (s.sampled_groups ≡ 0
        → (i : ℕ) (k : Key) → i < s.groups.size
        → is_candidate s i k ≡ true
        → before k key ≡ false)

module _ (s : IndexedMemoryLruPolicy) (x : IsIndexed s) (start : ℕ) (h : start < s.groups.size)
    (witness : Key) (c : Candidate s witness) where
  sampled : List ℕ
  sampled = groups_from (sample_size s) start 0 s.groups.size

  left_out : List ℕ
  left_out = groups_from (s.groups.size - sample_size s) start (sample_size s) s.groups.size

-- The victim, with the recency of its segment.
pub record IsVictim (s : IndexedMemoryLruPolicy) (victim : NodeId) : Type 0 where
  pub recency : ℕ
  pub chosen : IsChosen s (some (recency, victim))

abbrev decided : ℕ → MemoryPolicyWork → IndexedMemoryLruPolicy → IndexedMemoryLruPolicy
decided d w s = record s { decision = d; work = w }
