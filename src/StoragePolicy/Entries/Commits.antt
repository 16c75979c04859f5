-- ===== src/StoragePolicy/Entries/Commits.antt =====
-- What a committed mutation makes of the residency entries of
-- cpp/src/policies/storage/storage_policy_state.cpp, as a map.
use dwpdsim.Base.{
  ℕ, ◌≡◌, refl, List, [], ◌∷◌, Option, none, some, ◌>>=◌, Bool, true, false, arith, ◌==◌,
  if◌then◌else◌, contains, Returns, Returns-map, Returns-bind, Option-cases, inl, inr, ==true→eq,
}
use dwpdsim.Types.{NodeId, StorageTier, TimestampNs}
use dwpdsim.StoragePolicy.{
  StorageMutation, StorageMutationKind, dump_write_committed, capacity_trim_committed,
  idle_trim_committed, relocation_read_committed, relocation_write_committed,
  relocation_source_trim_committed, storage_access_committed, node_pruned,
}
use dwpdsim.StoragePolicy.Entries.{
  Entry, Entries, PolicyState, lookup, assign_all, erase_all, move_all, touch_all, on_commit,
  commit_kind,
}
use dwpdsim.StoragePolicy.Entries.Keys.{
  Rises, assign-Rises, erase-Rises, lookup-assign, lookup-erase,
}

abbrev pub is_some : Option Entry → Bool
is_some none = false
is_some (some e) = true

abbrev pub retiered : StorageTier → Option Entry → Option Entry
retiered t none = none
retiered t (some e) = some (record e { tier = t })

abbrev pub touched : TimestampNs → Option Entry → Option Entry
touched now none = none
touched now (some e) = some (record e { last_ns = now })

-- The entries have rising keys and are those of `f`.
pub record Implements (m : Entries) (f : NodeId → Option Entry) : Type 0 where
  pub rises : Rises m
  pub same : (q : NodeId) → lookup q m ≡ f q

-- `g` changes the entries of the listed nodes.
abbrev pub changing :
    List NodeId → (Option Entry → Option Entry) → (NodeId → Option Entry) → NodeId → Option Entry
changing ks g f q = if contains ks q then g (f q) else f q

at_key : (q k : ℕ) (m : Entries) → (q == k) ≡ true → lookup q m ≡ lookup k m
at_key q k m h = rw (==true→eq q k h)

assign_all-Implements :
    (ks : List NodeId) (e : Entry) (m : Entries)
    → Rises m
    → Implements (assign_all ks e m) (changing ks (λ o. some e) (λ q. lookup q m))
unfolding assign_all
assign_all-Implements [] e m r = record { rises = r; same = λ q. refl }
assign_all-Implements (k ∷ ks) e m r =
    let rest = assign_all-Implements ks e _ (assign-Rises k e m r) in
    record { rises = rest.rises; same = λ q. ground (arith, rest.same q, lookup-assign q k e m) }

erase_all-Implements :
    (ks : List NodeId) (m : Entries)
    → Rises m
    → Implements (erase_all ks m) (changing ks (λ o. none) (λ q. lookup q m))
unfolding erase_all
erase_all-Implements [] m r = record { rises = r; same = λ q. refl }
erase_all-Implements (k ∷ ks) m r =
    let rest = erase_all-Implements ks _ (erase-Rises k m r) in
    record { rises = rest.rises; same = λ q. ground (arith, rest.same q, lookup-erase q k m r) }

touch_all-Implements :
    (ks : List NodeId) (now : TimestampNs) (m : Entries)
    → Rises m
    → Implements (touch_all ks now m) (changing ks (touched now) (λ q. lookup q m))
unfolding touch_all
touch_all-Implements [] now m r = record { rises = r; same = λ q. refl }
touch_all-Implements (k ∷ ks) now m r = elim (Option-cases (lookup k m)) [
  | inl n ↦ rw n (record {
    rises = (touch_all-Implements ks now m r).rises;
    same = λ q. ground (arith, (touch_all-Implements ks now m r).same q, n, at_key q k m);
  })
  | inr (e, n) ↦ rw n (
      let rest = touch_all-Implements ks now _ (assign-Rises k (record e { last_ns = now }) m r) in
      record {
        rises = rest.rises;
        same = λ q.
            ground (
              arith,
              rest.same q,
              lookup-assign q k (record e { last_ns = now }) m,
              n,
              at_key q k m,
            );
      })
]

move_all-Implements :
    (ks : List NodeId) (t : StorageTier) (m : Entries)
    → Rises m
    → ((k : NodeId) → contains ks k ≡ true → is_some (lookup k m) ≡ true)
    → Returns (move_all ks t m) (λ m'. Implements m' (changing ks (retiered t) (λ q. lookup q m)))
unfolding move_all ◌>>=◌
move_all-Implements [] t m r h = record { rises = r; same = λ q. refl }
move_all-Implements (k ∷ ks) t m r h = elim (Option-cases (lookup k m)) [
  | inl n ↦ cc (n, h k (ground arith))
  | inr (e, n) ↦ rw n (
      Returns-map {Q = λ m'. Implements m' (changing (k ∷ ks) (retiered t) (λ q. lookup q m))} _
        (move_all-Implements ks t _ (assign-Rises k (record e { tier = t }) m r)
          (λ j c. ground (arith, lookup-assign j k (record e { tier = t }) m, h j)))
        λ m' i. record {
          rises = i.rises;
          same = λ q.
              ground
                (arith, i.same q, lookup-assign q k (record e { tier = t }) m, n, at_key q k m);
        })
]

-- The entries after a mutation: a dump enters its nodes, a trim or the pruning of a node takes them
-- out, a relocation's write moves them to its tier, an access stamps those that are there.
abbrev pub committed :
    StorageMutationKind → StorageMutation → (NodeId → Option Entry) → NodeId → Option Entry
committed dump_write_committed u f =
    changing u.nodes
      (λ o. some (record {
        tier = u.placement.tier;
        first_ns = u.timestamp_ns;
        last_ns = u.timestamp_ns;
        affinity_id = u.affinity_id;
      }))
      f
committed capacity_trim_committed u f = changing u.nodes (λ o. none) f
committed idle_trim_committed u f = changing u.nodes (λ o. none) f
committed node_pruned u f = changing u.nodes (λ o. none) f
committed relocation_write_committed u f = changing u.nodes (retiered u.placement.tier) f
committed storage_access_committed u f = changing u.nodes (touched u.timestamp_ns) f
committed relocation_read_committed u f = f
committed relocation_source_trim_committed u f = f

-- A relocation's write is only of nodes that have entries.
abbrev pub Applies : StorageMutationKind → StorageMutation → Entries → Type 0
Applies relocation_write_committed u m =
    (k : NodeId) → contains u.nodes k ≡ true → is_some (lookup k m) ≡ true
Applies _ u m = Unit

commit_kind-Implements :
    (kind : StorageMutationKind) (u : StorageMutation) (s : PolicyState)
    → Rises s.entries
    → Applies kind u s.entries
    → Returns
        (commit_kind kind u s)
        (λ t. Implements t.entries (committed kind u (λ q. lookup q s.entries)))
unfolding ◌>>=◌
commit_kind-Implements dump_write_committed u s r a = assign_all-Implements u.nodes _ s.entries r
commit_kind-Implements capacity_trim_committed u s r a = erase_all-Implements u.nodes s.entries r
commit_kind-Implements idle_trim_committed u s r a = erase_all-Implements u.nodes s.entries r
commit_kind-Implements node_pruned u s r a = erase_all-Implements u.nodes s.entries r
commit_kind-Implements storage_access_committed u s r a =
    touch_all-Implements u.nodes u.timestamp_ns s.entries r
commit_kind-Implements relocation_read_committed u s r a = record { rises = r; same = λ q. refl }
commit_kind-Implements relocation_source_trim_committed u s r a = record {
  rises = r;
  same = λ q. refl;
}
commit_kind-Implements relocation_write_committed u s r a =
    Returns-bind _ (move_all u.nodes u.placement.tier s.entries) _
      (move_all-Implements u.nodes u.placement.tier s.entries r a) (λ m i. i)

-- From entries with rising keys a commit returns, unless a relocation's write names a node without
-- an entry; the new entries again have rising keys, and as a map they are the old ones changed at
-- the mutation's nodes, in the way of its kind.
pub on_commit-Implements :
    (u : StorageMutation) (s : PolicyState)
    → Rises s.entries
    → Applies u.kind u s.entries
    → Returns
        (on_commit u s)
        (λ t. Implements t.entries (committed u.kind u (λ q. lookup q s.entries)))
unfolding on_commit
on_commit-Implements u s r a = commit_kind-Implements u.kind u s r a
