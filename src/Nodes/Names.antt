-- ===== src/Nodes/Names.antt =====
-- The name table finds just the names that are there: `lookup_node` of fuse-2.8.5/lib/fuse.c.
use fuse_nt.Prelude.{
  ℕ, ◌≤◌, ◌≡◌, refl, sym, ap, ◌∙◌, Bool, true, false, ◌&&◌, Option, none, some, List, [], ◌∷◌, ◌==◌,
  arith, Bool-cases, inl, inr, ==_refl, ==_iff,
}
use mathlib.Core.Option.{some-injective}
use fuse_nt.Prelude.Memory.{Str}
use fuse_nt.Prelude.Strings.{str_eq, str_eq-eq}
use fuse_nt.Nodes.{
  Node, Fuse, get, is_null, Found, found, missing, found_if, test_name, lookup_node, name_hash,
}
use fuse_nt.Nodes.Count.{count, at, has_id, get-nodeid, count-at, occurs}
use fuse_nt.Nodes.Invariant.{IsTree, is_live, in_chain, hashes_to, is_parent}
use fuse_nt.Nodes.Unref.{count-get}
use fuse_nt.Nodes.Lookup.{live_if-counted}
use fuse_nt.Nodes.Forget.{placed-named, is_live-some}

abbrev pub is_str : Str → Option Str → Bool
is_str name none = false
is_str name (some s) = str_eq s name

-- a node with this name in this directory
abbrev pub is_named : ℕ → Str → Node → Bool
is_named parent name n = is_parent parent n.parent && is_str name n.name

-- what a walk along the chain of a name reads of a node
record Named (ns : List Node) (p : ℕ) : Type 0 where
  node : Node
  parent : ℕ
  name : Str
  directory : Node
  there : get p ns ≡ some node
  parent_there : node.parent ≡ some parent
  name_there : node.name ≡ some name
  directory_there : get parent ns ≡ some directory

abbrev AreNamed : List Node → List ℕ → Type 0
AreNamed ns ps = (p : ℕ) → 1 ≤ occurs p ps → Named ns p

-- the result of a look-up
pub data LookedUp (ns : List Node) (parent : ℕ) (name : Str) (ps : List ℕ) (r : Found)
    : Type 0 where
  hit :
      (p : ℕ) (n : Node)
      → r ≡ found p
      → get p ns ≡ some n
      → is_named parent name n ≡ true
      → LookedUp ns parent name ps r
  miss :
      r ≡ missing
      → ((p : ℕ) (n : Node) → 1 ≤ occurs p ps → get p ns ≡ some n → is_named parent name n ≡ false)
      → LookedUp ns parent name ps r

AreNamed-tail : (ns : List Node) (p : ℕ) (ps : List ℕ) → AreNamed ns (p ∷ ps) → AreNamed ns ps
AreNamed-tail ns p ps a q h = a q (ground arith)

-- a node in front of a chain that does not have the name
LookedUp-behind :
    (ns : List Node) (parent : ℕ) (name : Str) (p : ℕ) (ps : List ℕ) (r : Found) (n : Node)
    → get p ns ≡ some n
    → is_named parent name n ≡ false
    → LookedUp ns parent name ps r
    → LookedUp ns parent name (p ∷ ps) r
LookedUp-behind ns parent name p ps r n e h (hit q m a b c) = hit q m a b c
LookedUp-behind ns parent name p ps r n e h (miss a b) = miss a (λ q m o e'.
    elim (Bool-cases (p == q)) [
      | inr k ↦ b q m (ground arith) e'
      | inl k ↦
          let s = ap (λ i. get i ns) ((==_iff p q).0 k) in
          let n0 = some-injective _ _ (sym e ∙ (s ∙ e')) in sym (ap (is_named parent name) n0) ∙ h
    ])

found_if-name :
    (ns : List Node) (parent : ℕ) (name : Str) (ps : List ℕ)
    → AreNamed ns ps
    → LookedUp ns parent name ps (found_if (test_name ns parent name) ns ps)
found_if-name ns parent name [] a = miss refl (λ p n o e. absurd (omega arith))
found_if-name ns parent name (p ∷ ps) a =
    let v = a p (ground (arith, ==_refl p)) in
    let z = get-nodeid v.parent ns v.directory v.directory_there in
    let e = v.there in
    let e1 = v.parent_there in
    let e2 = v.name_there in
    let e3 = v.directory_there in
    let ih = found_if-name ns parent name ps (AreNamed-tail ns p ps a) in
    elim (Bool-cases (v.parent == parent)) [
      | inl h ↦ elim (Bool-cases (str_eq v.name name)) [
        | inl k ↦ hit p v.node (rw (e, e1, e3, z, h, e2, k) refl) e (rw (e1, e2, h, k) refl)
        | inr k ↦
            rw (e, e1, e3, z, h, e2, k)
              (LookedUp-behind ns parent name p ps _ v.node e (rw (e1, e2, h, k) refl) ih)
      ]
      | inr h ↦
          rw (e, e1, e3, z, h) (LookedUp-behind ns parent name p ps _ v.node e (rw (e1, h) refl) ih)
    ]

pub hashes_to-named :
    (size h : ℕ) (o : Option ℕ) (s : Option Str) → hashes_to size h o s ≡ true → is_null s ≡ false
hashes_to-named size h none s e = absurd (ground arith)
hashes_to-named size h (some p) none e = absurd (ground arith)
hashes_to-named size h (some p) (some t) e = refl

pub count-at-id :
    (q : Node → Bool) (p : ℕ) (ns : List Node) → count (at p q) ns ≤ count (has_id p) ns
count-at-id q p [] = ground arith
count-at-id q p (n ∷ ns) = let ih = count-at-id q p ns in ground arith

pub hashes_to-parented :
    (size h : ℕ) (o : Option ℕ) (s : Option Str) → hashes_to size h o s ≡ true → is_null o ≡ false
hashes_to-parented size h none s e = absurd (ground arith)
hashes_to-parented size h (some p) s e = refl

is_named-hash :
    (size parent : ℕ) (name : Str) (o : Option ℕ) (s : Option Str)
    → (is_parent parent o && is_str name s) ≡ true
    → hashes_to size (name_hash size parent name) o s ≡ true
is_named-hash size parent name none s h = absurd (ground arith)
is_named-hash size parent name (some q) none h = absurd (ground arith)
is_named-hash size parent name (some q) (some s) h =
    let e : q ≡ parent = (==_iff q parent).0 (ground arith) in
    let e' : s ≡ name = str_eq-eq s name (ground arith) in
    rw (e, e') (==_refl (name_hash size parent name))

-- the two answers of a look-up
pub data LookedUpNode (f : Fuse) (parent : ℕ) (name : Str) : Type 0 where
  there :
      (p : ℕ) (n : Node)
      → lookup_node f parent name ≡ found p
      → get p f.nodes ≡ some n
      → is_named parent name n ≡ true
      → LookedUpNode f parent name
  nowhere :
      lookup_node f parent name ≡ missing
      → ((p : ℕ) (n : Node) → get p f.nodes ≡ some n → is_named parent name n ≡ false)
      → LookedUpNode f parent name

module _ (extra forgotten : ℕ → ℕ) (f : Fuse) where
  name_chain-AreNamed : (h : ℕ) → IsTree extra forgotten f → AreNamed f.nodes (f.name_table h)
  name_chain-AreNamed h t p o =
      let q = in_chain f.name_table_size h in
      let x = t.names h p in
      let c = count-at-id q p f.nodes in
      let (n, e) = live_if-counted p f.nodes (omega arith) in
      let c' = count-at q p f.nodes n (t.unique p) e in
      let i : q n ≡ true = ground (arith, x, c', o) in
      let k = hashes_to-named f.name_table_size h n.parent n.name i in
      let (r, s, a, b, _, l) =
        placed-named (is_live f.nodes) n.nodeid n.parent n.name
          (hashes_to-parented f.name_table_size h n.parent n.name i) k (t.each p n e).placement in
      let (m, e') = is_live-some f.nodes r l in
      record {
        node = n;
        parent = r;
        name = s;
        directory = m;
        there = e;
        parent_there = a;
        name_there = b;
        directory_there = e';
      }

  -- In a tree that satisfies the invariant, looking up a name in a directory gives a node of that name in that directory where there is
  -- one, and nothing where no node has it, whatever the chains of the hash table hold; no freed
  -- node is read.
  pub lookup_node-LookedUpNode :
      (parent : ℕ) (name : Str) → IsTree extra forgotten f → LookedUpNode f parent name
  unfolding lookup_node
  lookup_node-LookedUpNode parent name t =
      let h = name_hash f.name_table_size parent name in
      elim (found_if-name f.nodes parent name (f.name_table h) (name_chain-AreNamed h t)) [
        | hit p n e g d ↦ there p n e g d
        | miss e m ↦ nowhere e (λ p n g. elim (Bool-cases (is_named parent name n)) [
          | inr d ↦ d
          | inl d ↦
              let i = is_named-hash f.name_table_size parent name n.parent n.name d in
              let y : at p (in_chain f.name_table_size h) n ≡ true =
                rw (i, get-nodeid p f.nodes n g) (==_refl p) in
              let c = count-get (at p (in_chain f.name_table_size h)) p f.nodes n g y in
              let x = t.names h p in m p n (omega arith) g
        ])
      ]
