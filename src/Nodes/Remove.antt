-- ===== src/Nodes/Remove.antt =====
-- A name is removed: `unlink_node` and `remove_node` of fuse-2.8.5/lib/fuse.c.
use fuse_nt.Prelude.{
  ℕ, ◌+◌, ◌-◌, ◌≤◌, ◌≡◌, refl, sym, ap, ◌∙◌, Bool, true, false, ◌&&◌, Option, none, some, ◌==◌,
  if◌then◌else◌, arith, Bool-cases, inl, inr, lt→ltb,
}
use fuse_nt.Prelude.Memory.{Str}
use fuse_nt.Prelude.Run.{ok}
use fuse_nt.Nodes.{Node, Fuse, get, is_null, unhash_name, clear_name}
use fuse_nt.Nodes.Count.{map_node, get-modify_same, get-nodeid}
use fuse_nt.Nodes.Invariant.{IsWellFormed, nothing, is_live, is_parent}
use fuse_nt.Nodes.Unhash.{unhash_name-Unhashed}
use fuse_nt.Nodes.Forget.{less_known, with_lookups-IsTree, placed-named, is_live-some}
use fuse_nt.Nodes.Names.{is_named, is_str, there, nowhere, lookup_node-LookedUpNode}
use fuse_nt.Nodes.Ops.{drop_lookups, unlink_node, remove_node}

-- With `noforget`, a node with a name keeps a lookup of its own beside the one that is dropped.
abbrev pub IsKept : Fuse → Type 0
IsKept f =
    f.noforget ≡ true
    → (p : ℕ) (n : Node) → get p f.nodes ≡ some n
    → is_null n.name ≡ false
    → 2 ≤ n.nlookup

pub is_named-some :
    (parent : ℕ) (name : Str) (o : Option ℕ) (s : Option Str)
    → (is_parent parent o && is_str name s) ≡ true
    → is_null s ≡ false
is_named-some parent name o none h = absurd (ground arith)
is_named-some parent name o (some t) h = refl

pub is_named-parented :
    (parent : ℕ) (name : Str) (o : Option ℕ) (s : Option Str)
    → (is_parent parent o && is_str name s) ≡ true
    → is_null o ≡ false
is_named-parented parent name none s h = absurd (ground arith)
is_named-parented parent name (some q) s h = refl

-- `unhash_name` of a node with a name
unhashes :
    (p : ℕ) (f : Fuse) (n : Node)
    → get p f.nodes ≡ some n
    → is_null n.parent ≡ false
    → is_null n.name ≡ false
    → IsWellFormed f
    → (f' : Fuse) × (unhash_name p f ≡ ok tt f')
      × IsWellFormed f'
      × (get p f'.nodes ≡ some (clear_name n))
unhashes p f n e i z t =
    let (q, s, a, b, o, l) =
      placed-named (is_live f.nodes) n.nodeid n.parent n.name i z (t.each p n e).placement in
    let (m, e') = is_live-some f.nodes q l in
    let o' : (q == p) ≡ false = ap (λ r. q == r) (sym (get-nodeid p f.nodes n e)) ∙ o in
    let h =
      unhash_name-Unhashed (λ r. (if r == q then 1 else 0) + nothing r) nothing nothing p q s f n m
        (λ r. refl) refl e a b o' e' t in
    (h.after, h.runs, h.tree, h.stays)

-- what is left of an unlinked node
abbrev unlinked : Bool → Node → Node
unlinked noforget n = clear_name (if noforget then drop_lookups 1 n else n)

-- `unlink_node` with `noforget`
pub unlink_kept :
    (p : ℕ) (f : Fuse) (n : Node)
    → get p f.nodes ≡ some n
    → 2 ≤ n.nlookup
    → f.noforget ≡ true
    → unlink_node p f ≡ unhash_name p (less_known p 1 f)
unfolding unlink_node
unlink_kept p f n e l h = rw (h, e, lt→ltb 1 n.nlookup l) refl

pub unlink_plain : (p : ℕ) (f : Fuse) → f.noforget ≡ false → unlink_node p f ≡ unhash_name p f
unfolding unlink_node
unlink_plain p f h = rw h refl

unlink_node-IsWellFormed :
    (p : ℕ) (f : Fuse) (n : Node)
    → get p f.nodes ≡ some n
    → is_null n.parent ≡ false
    → is_null n.name ≡ false
    → (f.noforget ≡ true → 2 ≤ n.nlookup)
    → IsWellFormed f
    → (f' : Fuse) × (unlink_node p f ≡ ok tt f')
      × IsWellFormed f'
      × (get p f'.nodes ≡ some (unlinked f.noforget n))
unlink_node-IsWellFormed p f n e i z k t = elim (Bool-cases f.noforget) [
  | inr h ↦ let (f', u, t', g) = unhashes p f n e i z t in (f', unlink_plain p f h ∙ u, t', rw h g)
  | inl h ↦
      let l = k h in
      let e1 =
        get-modify_same p (drop_lookups 1) f.nodes (λ n. refl) ∙ ap (map_node (drop_lookups 1)) e in
      let t1 =
        with_lookups-IsTree p (λ x. x - 1) f n nothing (λ q o. refl) (ground arith)
          (λ i. omega arith) e t in
      let (f', u, t', g) = unhashes p (less_known p 1 f) (drop_lookups 1 n) e1 i z t1 in
      (f', unlink_kept p f n e l h ∙ u, t', rw h g)
]

-- what `remove_node` does, by what the name was
pub data Removed (f : Fuse) (dir : ℕ) (name : Str) : Type 0 where
  removed :
      (p : ℕ) (n : Node) (f' : Fuse)
      → get p f.nodes ≡ some n
      → is_named dir name n ≡ true
      → remove_node dir name f ≡ ok tt f'
      → IsWellFormed f'
      → get p f'.nodes ≡ some (unlinked f.noforget n)
      → Removed f dir name
  absent :
      ((p : ℕ) (n : Node) → get p f.nodes ≡ some n → is_named dir name n ≡ false)
      → remove_node dir name f ≡ ok tt f
      → Removed f dir name

-- Removing a name from a well-formed tree, where with `noforget` each named node has two lookups,
-- always returns: either a node of that name in that directory loses its name, stays for the
-- kernel and leaves a well-formed tree, or no node has the name and nothing changes.
pub remove_node-Removed :
    (dir : ℕ) (name : Str) (f : Fuse) → IsKept f → IsWellFormed f → Removed f dir name
unfolding remove_node
remove_node-Removed dir name f k t = elim (lookup_node-LookedUpNode nothing nothing f dir name t) [
  | nowhere e m ↦ absent m (rw e refl)
  | there p n e g d ↦
      let z = is_named-some dir name n.parent n.name d in
      let (f', u, t', s) =
        unlink_node-IsWellFormed p f n g (is_named-parented dir name n.parent n.name d) z
          (λ h. k h p n g z) t in
      removed p n f' g d (rw e u) t' s
]
