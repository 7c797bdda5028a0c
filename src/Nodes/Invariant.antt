-- ===== src/Nodes/Invariant.antt =====
-- What holds of the nodes and their two tables between the operations of fuse-2.8.5/lib/fuse.c.
use fuse_nt.Prelude.{
  ℕ, ◌+◌, ◌≤◌, ◌%◌, ◌≡◌, Bool, true, false, ◌&&◌, not, Option, none, some, List, ◌==◌,
  if◌then◌else◌,
}
use fuse_nt.Prelude.Int.{pos}
use fuse_nt.Prelude.Memory.{Str}
use fuse_nt.Nodes.{Node, Fuse, get, is_null, root_id, name_hash}
use fuse_nt.Nodes.Count.{count, at, has_id, occurs}

-- a node whose parent is at the pointer
abbrev pub is_parent : ℕ → Option ℕ → Bool
is_parent p none = false
is_parent p (some q) = q == p

abbrev pub child_of : ℕ → Node → Bool
child_of p n = is_parent p n.parent

-- whether a name and its parent belong into a chain
abbrev pub hashes_to : ℕ → ℕ → Option ℕ → Option Str → Bool
hashes_to size h (some p) (some name) = h == name_hash size p name
hashes_to size h _ _ = false

abbrev pub in_chain : ℕ → ℕ → Node → Bool
in_chain size h n = hashes_to size h n.parent n.name

-- the reference of the lookups of the kernel
abbrev pub held : ℕ → ℕ
held k = if k == 0 then 0 else 1

-- A node has a name just when it has a parent, which is another node that is not freed; the root
-- has the name "/" and no parent.
abbrev pub placed : (ℕ → Bool) → ℕ → Option ℕ → Option Str → Bool
placed live id none none = true
placed live id none (some name) = id == root_id
placed live id (some p) (some name) = not (p == id) && live p
placed live id _ _ = false

abbrev pub is_placed : (ℕ → Bool) → Node → Bool
is_placed live n = placed live n.nodeid n.parent n.name

abbrev pub is_live : List Node → ℕ → Bool
is_live ns p = not (is_null (get p ns))

-- what holds of one node, with its children and two numbers from the invariant
pub record IsNode (live : ℕ → Bool) (children extra forgotten : ℕ) (n : Node) : Type 0 where
  pub placement : is_placed live n ≡ true
  -- a reference for the lookups and one for each child
  pub refs : n.refctr ≡ held n.nlookup + children + extra
  pub referenced : 1 ≤ n.refctr
  -- only a node that the kernel knows has a name
  pub known : is_null n.name ≡ false → 1 ≤ n.nlookup + forgotten
  pub unlocked : n.treelock ≡ pos 0

-- The invariant, while `extra p` references to the node `p` are on their way, and `forgotten p`
-- tells that the node `p` is being forgotten.
pub record IsTree (extra forgotten : ℕ → ℕ) (f : Fuse) : Type 0 where
  -- ids are unique
  pub unique : (p : ℕ) → count (has_id p) f.nodes ≤ 1
  -- each node is once in its chain of each table, and nothing else is there
  pub ids :
      (h p : ℕ)
      → occurs p (f.id_table h) ≡ (if h == p % f.id_table_size then count (has_id p) f.nodes else 0)
  pub names :
      (h p : ℕ) → occurs p (f.name_table h) ≡ count (at p (in_chain f.name_table_size h)) f.nodes
  pub each :
      (p : ℕ) (n : Node)
      → get p f.nodes ≡ some n
      → IsNode (is_live f.nodes) (count (child_of p) f.nodes) (extra p) (forgotten p) n

abbrev pub nothing : ℕ → ℕ
nothing p = 0

-- between the operations
abbrev pub IsWellFormed : Fuse → Type 0
IsWellFormed f = IsTree nothing nothing f
