-- ===== src/Simulator/Books/Access.antt =====
-- An access to a block keeps the books of the simulator.
use dwpdsim.Base.{ℕ, Option, none, some, Ensures, returns, Ensures-bind, Ensures-after, Ensures-if}
use dwpdsim.Types.{Node, StorageTier, StorageLocation, AccessContext, storage_location}
use dwpdsim.StoragePolicy.{RelocateIntent, StorageActionIntent, trim, relocate}
use dwpdsim.Simulator.{Parts, Simulator}
use dwpdsim.Simulator.Access.{
  read_hit, migrate_hit, follow_action, access_storage, promote, access_node, process_access,
}
use dwpdsim.Simulator.Capacity.{ensure_capacity}
use dwpdsim.Simulator.Books.{
  Frame, InBooks, notify_memory_commit-InBooks, notify_storage_commit-InBooks, count_io-InBooks,
  emit_io-InBooks,
}
use dwpdsim.Simulator.Books.Relocation.{execute_relocation-InBooks}
use dwpdsim.Simulator.Books.Capacity.{ensure_capacity-KeepsBooks}
use dwpdsim.Simulator.Books.Memory.{insert_into_memory-InBooks}

module _ (P : Parts) (d : StorageTier → ℕ) (k : Frame) where
  read_hit-InBooks :
      (c : AccessContext) (l : StorageLocation) (move : Option ℕ) (s : Simulator P)
      → InBooks P d k s
      → Ensures (λ out. InBooks P d k out.1) (read_hit P c l move s)
  unfolding read_hit
  read_hit-InBooks c l move s b = Ensures-after _ λ n.
      Ensures-bind (emit_io-InBooks P d k _ _ _ _ _ _ _ _ s b)
        λ out b1. Ensures-bind (count_io-InBooks P d k _ _ _ _ out.1 b1) λ s1 b2. returns b2

  migrate_hit-InBooks :
      (c : AccessContext) (l : StorageLocation) (i : RelocateIntent) (s : Simulator P)
      → InBooks P d k s
      → Ensures (λ out. InBooks P d k out.1) (migrate_hit P c l i s)
  unfolding migrate_hit
  migrate_hit-InBooks c l i s b = Ensures-after _ λ segment. Ensures-after _ λ blocks.
      Ensures-bind (ensure_capacity-KeepsBooks P d k _ _ _ _ _ s b) λ room b1.
        Ensures-if room.0
          (Ensures-bind (read_hit-InBooks c l (some room.1.next_move_id) _ b1) λ out b2.
            execute_relocation-InBooks P k d (ensure_capacity P) i _ _ _ out.1
              (ensure_capacity-KeepsBooks P d k) b2)
          (returns b1)

  follow_action-InBooks :
      (c : AccessContext) (l : StorageLocation) (a : Option StorageActionIntent) (s : Simulator P)
      → InBooks P d k s
      → Ensures (λ out. InBooks P d k out.1) (follow_action P c l a s)
  follow_action-InBooks c l none s b = returns b
  follow_action-InBooks c l (some (trim i)) s b = returns b
  follow_action-InBooks c l (some (relocate i)) s b = migrate_hit-InBooks c l i s b

  access_storage-InBooks :
      (c : AccessContext) (l : StorageLocation) (s : Simulator P)
      → InBooks P d k s
      → Ensures (InBooks P d k) (access_storage P c l s)
  unfolding access_storage
  access_storage-InBooks c l s b = Ensures-after _ λ endpoint. Ensures-after _ λ nodes.
      Ensures-bind (notify_storage_commit-InBooks P d k _ s b) λ s1 b1. Ensures-after _ λ out.
        Ensures-bind (follow_action-InBooks c l out.0 (record s1 { storage_state = out.1 }) b1)
          λ moved b2.
            Ensures-if moved.0 (returns b2)
              (Ensures-bind (read_hit-InBooks c l none moved.1 b2) λ r b3. returns b3)

  promote-InBooks :
      (c : AccessContext) (s : Simulator P)
      → InBooks P d k s
      → Ensures (InBooks P d k) (promote P c s)
  unfolding promote
  promote-InBooks c s b =
      Ensures-after _
        λ n. Ensures-if _ (insert_into_memory-InBooks P d k c.node_id c _ b) (returns b)

  access_node-InBooks :
      (c : AccessContext) (n : Node) (s : Simulator P)
      → InBooks P d k s
      → Ensures (λ out. InBooks P d k out.1) (access_node P c n s)
  unfolding access_node
  access_node-InBooks c n s b =
      Ensures-if n.in_memory
        (Ensures-bind {P = InBooks P d k} (Ensures-after _ λ t. returns b)
          λ s1 b1. Ensures-bind (notify_memory_commit-InBooks P d k _ s1 b1) λ s2 b2. returns b2)
        (Ensures-if n.on_storage
          (Ensures-bind {P = InBooks P d k} (Ensures-after _ λ t. returns b) λ s1 b1.
            Ensures-bind {P = InBooks P d k}
              (Ensures-if s.config.infinite_storage (count_io-InBooks P d k _ _ _ _ s1 b1)
                (access_storage-InBooks c (storage_location n) s1 b1))
              λ s2 b2. Ensures-bind (promote-InBooks c s2 b2) λ s3 b3. returns b3)
          (Ensures-bind {P = InBooks P d k} (Ensures-after _ λ t. returns b) λ s1 b1.
            Ensures-bind (insert_into_memory-InBooks P d k c.node_id c s1 b1) λ s2 b2. returns b2))

  pub process_access-InBooks :
      (c : AccessContext) (s : Simulator P)
      → InBooks P d k s
      → Ensures (λ out. InBooks P d k out.1) (process_access P c s)
  unfolding process_access
  process_access-InBooks c s b =
      Ensures-after _ λ n. Ensures-bind (access_node-InBooks c n _ b) λ out b1. returns b1
