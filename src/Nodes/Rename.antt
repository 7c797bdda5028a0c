-- ===== src/Nodes/Rename.antt =====
-- `rename_node` of fuse-2.8.5/lib/fuse.c moves a name.
use mathlib.Core.Path.{subst}
use mathlib.Core.Option.{some-injective}
use fuse_nt.Prelude.{
  ℕ, ◌≤◌, ◌≡◌, refl, sym, ap, ◌∙◌, Bool, true, false, some, none, ◌==◌, ◌&&◌, if◌then◌else◌, arith,
  Bool-cases, inl, inr, ==_iff, Option,
}
use fuse_nt.Prelude.Memory.{Str}
use fuse_nt.Prelude.Run.{ok, ◌>>◌}
use fuse_nt.Nodes.{Node, Fuse, get, is_null}
use fuse_nt.Nodes.Count.{get-nodeid}
use fuse_nt.Nodes.Invariant.{IsWellFormed, nothing, is_parent, is_live, placed}
use fuse_nt.Nodes.Names.{is_named, is_str, there, nowhere, lookup_node-LookedUpNode}
use fuse_nt.Nodes.Remove.{IsKept, is_named-some, is_named-parented}
use fuse_nt.Nodes.Cleared.{unlink_node-Cleared}
use fuse_nt.Nodes.Rehash.{Rehashed, rehash-Rehashed}
use fuse_nt.Nodes.Ops.{rename_node, rehash, unlink_node, renamed, ebusy}

-- A node is not its own directory.
placed-apart :
    (live : ℕ → Bool) (id p : ℕ) (o : Option ℕ) (s : Option Str)
    → is_parent p o ≡ true
    → is_null s ≡ false
    → placed live id o s ≡ true
    → (p == id) ≡ false
placed-apart live id p none s h k e = absurd (ground arith)
placed-apart live id p (some q) none h k e = absurd (ground arith)
placed-apart live id p (some q) (some s) h k e = ground arith

is_named-parent :
    (parent : ℕ) (name : Str) (o : Option ℕ) (s : Option Str)
    → (is_parent parent o && is_str name s) ≡ true
    → is_parent parent o ≡ true
is_named-parent parent name o s h = ground arith

-- What a renaming does; `Rehashed` says what becomes of a node that moves: it is at its pointer in
-- a well-formed tree, with the new name in the new directory where that can be copied, and else,
-- after -ENOMEM, without name.
pub data RenamedNode (olddir : ℕ) (oldname : Str) (newdir : ℕ) (newname : Str) (hide : Bool)
    (f : Fuse) : Type 0 where
  unknown_name :
      ((p : ℕ) (n : Node) → get p f.nodes ≡ some n → is_named olddir oldname n ≡ false)
      → rename_node olddir oldname newdir newname hide f ≡ ok renamed f
      → RenamedNode olddir oldname newdir newname hide f
  in_the_way :
      (q : ℕ) (m : Node)
      → hide ≡ true
      → get q f.nodes ≡ some m
      → is_named newdir newname m ≡ true
      → rename_node olddir oldname newdir newname hide f ≡ ok ebusy f
      → RenamedNode olddir oldname newdir newname hide f
  moved :
      (p : ℕ) (n : Node)
      → get p f.nodes ≡ some n
      → is_named olddir oldname n ≡ true
      → Rehashed p newdir newname f.mem (rename_node olddir oldname newdir newname hide f)
      → RenamedNode olddir oldname newdir newname hide f

module _ (olddir : ℕ) (oldname : Str) (newdir : ℕ) (newname : Str) (hide : Bool) (f : Fuse)
    (d : Node) (kept : IsKept f) (t : IsWellFormed f) (e : get newdir f.nodes ≡ some d)
    (known : 1 ≤ d.nlookup) (other : is_named olddir oldname d ≡ false) where
  -- the directory is not the node that moves
  not_itself :
      (p : ℕ) (n : Node)
      → get p f.nodes ≡ some n
      → is_named olddir oldname n ≡ true
      → (newdir == p) ≡ false
  not_itself p n g i = elim (Bool-cases (newdir == p)) [
    | inr h ↦ h
    | inl h ↦
        let w = ap (λ q. get q f.nodes) ((==_iff newdir p).0 h) in
        let n0 = some-injective _ _ (sym e ∙ (w ∙ g)) in
        let z = ap (is_named olddir oldname) n0 in absurd (ground arith)
  ]

  -- a node with the new name is not in the way
  no_target :
      (p : ℕ) (n : Node)
      → get p f.nodes ≡ some n
      → is_named olddir oldname n ≡ true
      → Rehashed p newdir newname f.mem (rehash p newdir newname hide f)
  no_target p n g i =
      let v = t.each p n g in
      let z = is_named-some olddir oldname n.parent n.name i in
      let k = v.known z in
      rehash-Rehashed p newdir newname hide f n d g
        (λ _. is_named-parented olddir oldname n.parent n.name i) (omega arith) e known
        (not_itself p n g i) t

  -- the node with the new name loses it first
  target_gone :
      (p q : ℕ) (n m : Node)
      → get p f.nodes ≡ some n
      → is_named olddir oldname n ≡ true
      → get q f.nodes ≡ some m
      → is_named newdir newname m ≡ true
      → Rehashed p newdir newname f.mem ((unlink_node q >> rehash p newdir newname hide) f)
  target_gone p q n m g i g' i' =
      let z = is_named-some olddir oldname n.parent n.name i in
      let z' = is_named-some newdir newname m.parent m.name i' in
      let y' = is_named-parented newdir newname m.parent m.name i' in
      let k = (t.each p n g).known z in
      let k' = (t.each q m g').known z' in
      let c = unlink_node-Cleared q f m g' (λ _. y') (omega arith) (λ h. kept h q m g' z') t in
      let o : (newdir == q) ≡ false =
        ap (λ r. newdir == r) (sym (get-nodeid q f.nodes m g'))
        ∙ placed-apart (is_live f.nodes) m.nodeid newdir m.parent m.name
            (is_named-parent newdir newname m.parent m.name i') z' (t.each q m g').placement in
      let s = c.others newdir d o e known in
      let a = not_itself p n g i in
      let b = s.same_nlookup in
      rw c.runs (
        subst (λ mem. Rehashed p newdir newname mem (rehash p newdir newname hide c.after))
          c.same_mem
          (elim (Bool-cases (p == q)) [
            | inl h ↦
                rehash-Rehashed p newdir newname hide c.after c.node s.node
                  (ap (λ r. get r c.after.nodes) ((==_iff p q).0 h) ∙ c.there)
                  (λ j. let j' = ap is_null c.nameless in absurd (ground arith)) c.looked_up s.there
                  (omega arith) a c.tree
            | inr h ↦
                let r = c.others p n h g (omega arith) in
                rehash-Rehashed p newdir newname hide c.after r.node s.node r.there
                  (λ _.
                    ap is_null r.same_parent ∙ is_named-parented olddir oldname n.parent n.name i)
                  (let l = r.same_nlookup in omega arith) s.there (omega arith) a c.tree
          ]))

  -- In a well-formed tree, where with `noforget` each named node has two lookups, a renaming into a
  -- directory that the kernel knows and that is not the node itself always returns. It changes
  -- nothing where no node has the old name, or where the node must hide and a node has the new
  -- name. Otherwise the node has the new name in the new directory where the allocation of the copy
  -- succeeds, and no name where it fails, and the tree is well formed.
  pub rename_node-RenamedNode : RenamedNode olddir oldname newdir newname hide f
  unfolding rename_node
  rename_node-RenamedNode = elim (lookup_node-LookedUpNode nothing nothing f olddir oldname t) [
    | nowhere a z ↦ elim (lookup_node-LookedUpNode nothing nothing f newdir newname t) [
      | nowhere b _ ↦ unknown_name z (rw (a, b) refl)
      | there q m b g i ↦ unknown_name z (rw (a, b) refl)
    ]
    | there p n a g i ↦ elim (lookup_node-LookedUpNode nothing nothing f newdir newname t) [
      | nowhere b _ ↦ moved p n g i (rw (a, b) (no_target p n g i))
      | there q m b g' i' ↦ elim (Bool-cases hide) [
        | inl h ↦ in_the_way q m h g' i' (rw (a, b, h) refl)
        | inr h ↦ moved p n g i (
            rw (a, b)
              (subst
                (λ x.
                  Rehashed p newdir newname f.mem
                    (if x then ok ebusy f else (unlink_node q >> rehash p newdir newname hide) f))
                (sym h) (target_gone p q n m g i g' i')))
      ]
    ]
  ]
