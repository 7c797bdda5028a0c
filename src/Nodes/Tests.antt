-- ===== src/Nodes/Tests.antt =====
-- A tree with a root and one file, on which the nodes of fuse-2.8.5/lib/fuse.c are run.
use fuse_nt.Prelude.{
  ℕ, ◌<◌, ◌%◌, ◌≡◌, refl, ap, ◌∙◌, false, none, some, [], ◌∷◌, ◌==◌, if◌then◌else◌, arith,
  Bool-cases, inl, inr, ==_iff,
}
use mathlib.Core.Option.{some-injective}
use mathlib.Core.Path.{subst}
use fuse_nt.Prelude.Int.{pos}
use fuse_nt.Prelude.Memory.{Str}
use fuse_nt.Prelude.Run.{ok}
use fuse_nt.Nodes.{Node, Fuse, get, get_node_nocheck, name_hash, found}
use fuse_nt.Nodes.Invariant.{in_chain, IsNode, IsWellFormed, nothing, is_live, child_of}
use fuse_nt.Nodes.Count.{at, count}
use fuse_nt.Nodes.Ops.{forget_node, drop_lookups, id_rounds, next_id}
use fuse_nt.Nodes.Lookup.{get_node_nocheck-get}
use fuse_nt.Nodes.Names.{LookedUpNode, lookup_node-LookedUpNode}
use fuse_nt.Nodes.Remove.{Removed, remove_node-Removed}
use fuse_nt.Nodes.Forget.{forget_node-IsWellFormed}
use fuse_nt.Nodes.NextId.{Fresh, next_id-Fresh}
use fuse_nt.Nodes.Rename.{RenamedNode, rename_node-RenamedNode}
use fuse_nt.Nodes.Find.{FoundNode, find_node-FoundNode}

abbrev a_name : Str
a_name = 97 ∷ []

abbrev root : Node
root = record {
  nodeid = 1;
  generation = 0;
  refctr = 2;
  parent = none;
  name = some (47 ∷ []);
  nlookup = 1;
  open_count = 0;
  is_hidden = false;
  treelock = pos 0;
  ticket = 0;
}

abbrev file : Node
file = record {
  nodeid = 2;
  generation = 0;
  refctr = 1;
  parent = some 1;
  name = some a_name;
  nlookup = 3;
  open_count = 0;
  is_hidden = false;
  treelock = pos 0;
  ticket = 0;
}

abbrev a_chain : ℕ
a_chain = name_hash 14057 1 a_name

abbrev fuse : Fuse
fuse = record {
  nodes = file ∷ root ∷ [];
  id_table = λ h. if h == 2 then 2 ∷ [] else if h == 1 then 1 ∷ [] else [];
  id_table_size = 14057;
  name_table = λ h. if h == a_chain then 2 ∷ [] else [];
  name_table_size = 14057;
  ctr = 2;
  generation = 0;
  noforget = false;
  mem = [];
}

fuse-file :
    (n : Node) → file ≡ n → IsNode (is_live fuse.nodes) (count (child_of 2) fuse.nodes) 0 0 n
fuse-file n e = subst (IsNode (is_live fuse.nodes) (count (child_of 2) fuse.nodes) 0 0) e (record {
  placement = refl;
  refs = refl;
  referenced = omega arith;
  known = λ i. omega arith;
  unlocked = refl;
})

fuse-root :
    (n : Node) → root ≡ n → IsNode (is_live fuse.nodes) (count (child_of 1) fuse.nodes) 0 0 n
fuse-root n e = subst (IsNode (is_live fuse.nodes) (count (child_of 1) fuse.nodes) 0 0) e (record {
  placement = refl;
  refs = refl;
  referenced = omega arith;
  known = λ i. omega arith;
  unlocked = refl;
})

fuse-each :
    (p : ℕ) (n : Node)
    → get p fuse.nodes ≡ some n
    → IsNode (is_live fuse.nodes) (count (child_of p) fuse.nodes) (nothing p) (nothing p) n
fuse-each p n e = elim (Bool-cases (2 == p)) [
  | inl h ↦
      let h' = (==_iff 2 p).0 h in
      rw (← h') (fuse-file n (some-injective _ _ (ap (λ r. get r fuse.nodes) h' ∙ e)))
  | inr h ↦ elim (Bool-cases (1 == p)) [
    | inl k ↦
        let k' = (==_iff 1 p).0 k in
        rw (← k') (fuse-root n (some-injective _ _ (ap (λ r. get r fuse.nodes) k' ∙ e)))
    | inr k ↦ absurd (ground (arith, e, h, k))
  ]
]

fuse-ids :
    (h p : ℕ)
    → count (λ q. q == p) (fuse.id_table h)
      ≡ (if h == p % 14057 then count (λ (n : Node). n.nodeid == p) fuse.nodes else 0)
fuse-ids h p = elim (Bool-cases (2 == p)) [
  | inl e ↦ rw (← (==_iff 2 p).0 e) (ground arith)
  | inr e ↦ elim (Bool-cases (1 == p)) [
    | inl k ↦ rw (← (==_iff 1 p).0 k) (ground arith)
    | inr k ↦ rw (e, k) (ground (arith, e, k))
  ]
]

fuse-names :
    (h p : ℕ) → count (λ q. q == p) (fuse.name_table h) ≡ count (at p (in_chain 14057 h)) fuse.nodes
fuse-names h p = elim (Bool-cases (h == a_chain)) [ inl e ↦ rw e refl | inr e ↦ rw e refl ]

fuse-IsWellFormed : IsWellFormed fuse
fuse-IsWellFormed = record {
  unique = λ p. ground arith;
  ids = fuse-ids;
  names = fuse-names;
  each = fuse-each;
}

get_node_nocheck-get_example : get_node_nocheck fuse 2 ≡ found 2
get_node_nocheck-get_example = get_node_nocheck-get nothing nothing fuse 2 fuse-IsWellFormed

lookup_node-LookedUpNode_example : LookedUpNode fuse 1 a_name
lookup_node-LookedUpNode_example =
    lookup_node-LookedUpNode nothing nothing fuse 1 a_name fuse-IsWellFormed

forget_node-IsWellFormed_example :
    (f' : Fuse) × (forget_node 2 3 fuse ≡ ok tt f')
    × IsWellFormed f'
    × (3 < 3 → get 2 f'.nodes ≡ some (drop_lookups 3 file))
forget_node-IsWellFormed_example =
    forget_node-IsWellFormed 2 3 fuse file refl refl (omega arith) (omega arith) fuse-IsWellFormed

remove_node-Removed_example : Removed fuse 1 a_name
remove_node-Removed_example =
    remove_node-Removed 1 a_name fuse (λ h. absurd (ground arith)) fuse-IsWellFormed

next_id-Fresh_example : Fresh fuse (next_id (id_rounds fuse) fuse)
next_id-Fresh_example = next_id-Fresh fuse fuse-IsWellFormed (omega arith) (omega arith)

find_node-FoundNode_example : FoundNode fuse 1 (98 ∷ [])
find_node-FoundNode_example =
    find_node-FoundNode 1 (98 ∷ []) fuse root fuse-IsWellFormed refl (omega arith) (omega arith)

rename_node-RenamedNode_example : RenamedNode 1 a_name 1 (98 ∷ []) false fuse
rename_node-RenamedNode_example =
    rename_node-RenamedNode 1 a_name 1 (98 ∷ []) false fuse root (λ h. absurd (ground arith))
      fuse-IsWellFormed refl (omega arith) refl
