-- ===== src/Nodes/Free.antt =====
-- A node that loses its last reference is freed: `unref_node` and `delete_node` of
-- fuse-2.8.5/lib/fuse.c.
use mathlib.Core.Path.{subst}
use fuse_nt.Prelude.{
  ℕ, ◌+◌, ◌≤◌, ◌%◌, ◌≡◌, refl, true, false, ◌&&◌, Option, none, some, List, [], ◌∷◌, ◌==◌,
  if◌then◌else◌, arith, Bool-cases, inl, inr, ==_refl, ==_iff,
}
use fuse_nt.Prelude.Memory.{Str}
use fuse_nt.Prelude.Run.{ok}
use fuse_nt.Nodes.{
  Node, Fuse, get, modify, erase, remove_first, at_index, drop_ref, unref_node, delete_node,
  unhash_id,
}
use fuse_nt.Nodes.Count.{
  count, at, has_id, get-erase, count-erase, erase-modify, occurs, occurs-remove_first,
  get-modify_same,
}
use fuse_nt.Nodes.Invariant.{
  IsTree, IsNode, is_live, in_chain, hashes_to, child_of, is_parent, placed,
}
use fuse_nt.Nodes.Unref.{
  IsMore, IsMore-other, IsMore-same, IsLast, IsNode-IsLast, IsNode-extra, count-get,
  count-erase_same, dropped-IsTree,
}

-- without the node
abbrev pub freed : ℕ → Fuse → Fuse
freed p f = record f {
  id_table = at_index (p % f.id_table_size) (remove_first p) f.id_table;
  nodes = erase p f.nodes;
}

get-erase-some :
    (p q : ℕ) (ns : List Node) (n : Node)
    → get q (erase p ns) ≡ some n
    → ((q == p) ≡ false) × (get q ns ≡ some n)
get-erase-some p q ns n e = let s = get-erase p q ns in ground arith

-- liveness behind another pointer than the freed one
placed-erase :
    (p : ℕ) (ns : List Node) (id : ℕ) (o : Option ℕ) (s : Option Str)
    → is_parent p o ≡ false
    → placed (is_live ns) id o s ≡ true
    → placed (is_live (erase p ns)) id o s ≡ true
placed-erase p ns id none none c h = refl
placed-erase p ns id none (some s) c h = h
placed-erase p ns id (some r) none c h = h
placed-erase p ns id (some r) (some s) c h = let e = get-erase p r ns in rw (get-erase p r ns, c) h

count_id-erase :
    (p q : ℕ) (ns : List Node)
    → count (has_id q) (erase p ns) ≡ (if q == p then 0 else count (has_id q) ns)
count_id-erase p q [] = ground arith
count_id-erase p q (n ∷ ns) = let ih = count_id-erase p q ns in ground arith

own_chain-erase :
    (q h size : ℕ) (ns : List Node) (table : ℕ → List ℕ)
    → count (has_id q) ns ≤ 1
    → occurs q (table h) ≡ (if h == q % size then count (has_id q) ns else 0)
    → occurs q (at_index (q % size) (remove_first q) table h)
      ≡ (if h == q % size then count (has_id q) (erase q ns) else 0)
own_chain-erase q h size ns table u o =
    let c = count_id-erase q q ns in
    let r = occurs-remove_first q q (table h) in
    let z = ==_refl q in
    elim (Bool-cases (h == q % size)) [
      | inl d ↦ rw (d, r, z, c, z, o, d) (omega arith)
      | inr d ↦ rw (d, o, d) refl
    ]

-- the chain of an id without the pointer
id_chain-erase :
    (p q h size : ℕ) (ns : List Node) (table : ℕ → List ℕ)
    → count (has_id q) ns ≤ 1
    → occurs q (table h) ≡ (if h == q % size then count (has_id q) ns else 0)
    → occurs q (at_index (p % size) (remove_first p) table h)
      ≡ (if h == q % size then count (has_id q) (erase p ns) else 0)
id_chain-erase p q h size ns table u o =
    let c = count_id-erase p q ns in
    let r = occurs-remove_first p q (table h) in
    elim (Bool-cases (q == p)) [
      | inl s ↦ let s' = (==_iff q p).0 s in rw (← s') (own_chain-erase q h size ns table u o)
      | inr s ↦ elim (Bool-cases (h == p % size)) [
        | inl d ↦ rw (d, r, s, c, s) o
        | inr d ↦ rw (d, c, s) o
      ]
    ]

nameless_chain : (size h q : ℕ) (n : Node) → n.name ≡ none → at q (in_chain size h) n ≡ false
nameless_chain size h q n e = rw e (parentless n.parent)
  where
    parentless : (o : Option ℕ) → (hashes_to size h o none && has_id q n) ≡ false
    parentless none = refl
    parentless (some r) = refl

module _ (more less forgotten : ℕ → ℕ) (p : ℕ) (f : Fuse) where
  not_child :
      (n : Node) (q : ℕ)
      → get q f.nodes ≡ some n
      → count (child_of p) f.nodes ≡ 0
      → child_of p n ≡ false
  not_child n q e h = elim (Bool-cases (child_of p n)) [
    | inr c ↦ c
    | inl c ↦ let x = count-get (child_of p) q f.nodes n e c in absurd (omega arith)
  ]

  freed-IsTree :
      (n : Node)
      → IsMore p more less
      → forgotten p ≡ 0
      → get p f.nodes ≡ some n
      → IsLast f.nodes p n
      → IsTree more forgotten f
      → IsTree less forgotten (freed p f)
  freed-IsTree n m fo e l t = record {
    unique = λ q. let a = count-erase (has_id q) p f.nodes in let b = t.unique q in omega arith;
    ids = λ h q. id_chain-erase p q h f.id_table_size f.nodes f.id_table (t.unique q) (t.ids h q);
    names = λ h q.
        rw
          (count-erase_same (at q (in_chain f.name_table_size h)) p f.nodes n (t.unique p) e
            (nameless_chain f.name_table_size h q n l.nameless))
          (t.names h q);
    each = λ q n' e'.
        let (o, e'') = get-erase-some p q f.nodes n' e' in
        let v = t.each q n' e'' in
        record {
          placement =
              placed-erase p f.nodes n'.nodeid n'.parent n'.name (not_child n' q e'' l.childless)
                v.placement;
          refs =
              let c =
                count-erase_same (child_of q) p f.nodes n (t.unique p) e (rw l.parentless refl) in
              let x = v.refs in let y = IsMore-other p q more less m o in omega arith;
          referenced = v.referenced;
          known = v.known;
          unlocked = v.unlocked;
        };
  }

  -- what `unref_node` leaves
  pub data Unreferenced : Type 0 where
    still :
        (n : Node)
        → get p f.nodes ≡ some n
        → unref_node p f ≡ ok tt (record f { nodes = modify p drop_ref f.nodes })
        → IsTree less forgotten (record f { nodes = modify p drop_ref f.nodes })
        → Unreferenced
    gone :
        (n : Node)
        → get p f.nodes ≡ some n
        → n.nlookup ≡ 0
        → unref_node p f ≡ ok tt (freed p f)
        → IsTree less forgotten (freed p f)
        → Unreferenced

  pub unref_node-Unreferenced :
      (n : Node)
      → IsMore p more less
      → forgotten p ≡ 0
      → get p f.nodes ≡ some n
      → IsTree more forgotten f
      → Unreferenced
  unfolding unref_node delete_node unhash_id
  unref_node-Unreferenced n m fo e t =
      let v = t.each p n e in
      let r : (n.refctr == 0) ≡ false = ground (arith, v.referenced) in
      elim (Bool-cases (n.refctr == 1)) [
        | inr h ↦ still n e (rw (e, r, h) refl) (dropped-IsTree more less forgotten p f n m e h t)
        | inl h ↦
            let l = IsNode-IsLast f.nodes p (less p) n h (
              subst (λ x. IsNode (is_live f.nodes) (count (child_of p) f.nodes) (1 + less p) x n) fo
                (IsNode-extra _ _ _ _ _ n (IsMore-same p more less m) v)) in
            gone n e (ground (arith, v.refs, h, IsMore-same p more less m))
              (rw
                (
                  e,
                  r,
                  h,
                  get-modify_same p drop_ref f.nodes (λ n. refl),
                  e,
                  v.unlocked,
                  l.nameless,
                  erase-modify p drop_ref f.nodes (λ n. refl),
                )
                refl)
              (freed-IsTree n m fo e l t)
      ]
