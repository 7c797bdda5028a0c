-- ===== src/Nodes/Forget.antt =====
-- `forget_node` of fuse-2.8.5/lib/fuse.c keeps the invariant.

use mathlib.Core.Option.{some-injective}
use fuse_nt.Prelude.{
  ℕ, ◌+◌, ◌-◌, ◌≤◌, ◌<◌, ◌≡◌, refl, sym, ap, ◌∙◌, Bool, true, false, ◌&&◌, Option, none, some, List,
  ◌==◌, if◌then◌else◌, arith, Bool-cases, Option-cases, inl, inr, ==_refl, ==_iff, le→leb,
}
use fuse_nt.Prelude.Memory.{Str}
use fuse_nt.Prelude.Run.{ok, ◌>>◌, and_then}
use fuse_nt.Nodes.{Node, Fuse, get, modify, is_null, root_id, unref_node, unhash_name, clear_name}
use fuse_nt.Nodes.Count.{map_node, has_id, get-modify_same, get-modify_cases, get-nodeid}
use fuse_nt.Nodes.Invariant.{
  IsTree, IsWellFormed, nothing, is_live, in_chain, child_of, held, placed,
}
use fuse_nt.Nodes.Unref.{count-modify_same, is_live-modify}
use fuse_nt.Nodes.Free.{still, gone, unref_node-Unreferenced}
use fuse_nt.Nodes.Unhash.{unhash_name-Unhashed}
use fuse_nt.Nodes.Lookup.{get_node_nocheck-found}
use fuse_nt.Nodes.Ops.{drop_lookups, forget_node}

-- one at the node, nothing elsewhere
abbrev pub one_at : ℕ → ℕ → ℕ
one_at p q = if q == p then 1 else 0

-- the node without these lookups
abbrev pub less_known : ℕ → ℕ → Fuse → Fuse
less_known p k f = record f { nodes = modify p (drop_lookups k) f.nodes }

-- another number of lookups
abbrev pub set_lookups : (ℕ → ℕ) → Node → Node
set_lookups φ n = record n { nlookup = φ n.nlookup }

abbrev pub with_lookups : ℕ → (ℕ → ℕ) → Fuse → Fuse
with_lookups p φ f = record f { nodes = modify p (set_lookups φ) f.nodes }

module _ (p : ℕ) (φ : ℕ → ℕ) (f : Fuse) (n : Node) where
  -- any change of `nlookup` that the two numbers account for
  pub with_lookups-IsTree :
      (extra : ℕ → ℕ)
      → ((q : ℕ) → (q == p) ≡ false → extra q ≡ 0)
      → held n.nlookup ≡ held (φ n.nlookup) + extra p
      → (is_null n.name ≡ false → 1 ≤ φ n.nlookup + extra p)
      → get p f.nodes ≡ some n
      → IsWellFormed f
      → IsTree extra extra (with_lookups p φ f)
  with_lookups-IsTree extra z h kn e t =
      let g = set_lookups φ in
      record {
        unique = λ q. rw (count-modify_same (has_id q) p g f.nodes (λ n. refl)) (t.unique q);
        ids = λ i q. rw (count-modify_same (has_id q) p g f.nodes (λ n. refl)) (t.ids i q);
        names = λ i q.
            rw
              (count-modify_same (λ m. in_chain f.name_table_size i m && has_id q m) p g f.nodes
                (λ n. refl))
              (t.names i q);
        each = λ q n' e'.
            rw
              (
                is_live-modify p g f.nodes (λ n. refl),
                count-modify_same (child_of q) p g f.nodes (λ n. refl),
              )
              (elim (get-modify_cases p q g f.nodes n' (λ n. refl) e') [
                | inr (o, e'') ↦ rw (z q o) (t.each q n' e'')
                | inl (n'', s, e'', d) ↦
                    let n0 = some-injective _ _ (sym e ∙ e'') in
                    let v = t.each p n e in
                    rw (d, s, ← n0)
                      (record {
                        placement = v.placement;
                        refs = let r = v.refs in omega arith;
                        referenced = v.referenced;
                        known = kn;
                        unlocked = v.unlocked;
                      })
              ]);
      }

-- A node without name is forgotten in no other sense.
nameless-known :
    (extra : ℕ → ℕ) (p : ℕ) (f : Fuse) (n : Node)
    → get p f.nodes ≡ some n
    → is_null n.name ≡ true
    → IsTree extra (one_at p) f
    → IsTree extra nothing f
nameless-known extra p f n e z t = record {
  unique = t.unique;
  ids = t.ids;
  names = t.names;
  each = λ q n' e'.
      let v = t.each q n' e' in
      record {
        placement = v.placement;
        refs = v.refs;
        referenced = v.referenced;
        known = λ i. elim (Bool-cases (q == p)) [
          | inr o ↦ let x = v.known i in ground arith
          | inl o ↦
              let s = (==_iff q p).0 o in
              let n0 = some-injective _ _ (sym e ∙ (sym (ap (λ r. get r f.nodes) s) ∙ e')) in
              let w : is_null n'.name ≡ true = sym (ap (λ (m : Node). is_null m.name) n0) ∙ z in
              absurd (ground arith)
        ];
        unlocked = v.unlocked;
      };
}

-- the end of `forget_node`: the last reference of a node without name
unref_nameless :
    (p : ℕ) (f : Fuse) (n : Node)
    → get p f.nodes ≡ some n
    → is_null n.name ≡ true
    → IsTree (one_at p) (one_at p) f
    → (f' : Fuse) × (unref_node p f ≡ ok tt f') × IsWellFormed f'
unref_nameless p f n e z t =
    elim (unref_node-Unreferenced (one_at p) nothing nothing p f n (λ q. omega arith) refl e
      (nameless-known (one_at p) p f n e z t)) [
        | still _ _ u t' ↦ (_, u, t')
        | gone _ _ _ u t' ↦ (_, u, t')
      ]

-- only the root has a name and no parent
placed-parented :
    (live : ℕ → Bool) (id : ℕ) (o : Option ℕ) (s : Option Str)
    → (id == root_id) ≡ false
    → is_null s ≡ false
    → placed live id o s ≡ true
    → is_null o ≡ false
placed-parented live id o none r h e = absurd (ground arith)
placed-parented live id none (some t) r h e = absurd (ground arith)
placed-parented live id (some q) (some t) r h e = refl

-- where a node with a name is
pub placed-named :
    (live : ℕ → Bool) (id : ℕ) (o : Option ℕ) (s : Option Str)
    → is_null o ≡ false
    → is_null s ≡ false
    → placed live id o s ≡ true
    → (q : ℕ) × (t : Str) × (o ≡ some q) × (s ≡ some t) × ((q == id) ≡ false) × (live q ≡ true)
placed-named live id o none g h e = absurd (ground arith)
placed-named live id none (some t) g h e = absurd (ground arith)
placed-named live id (some q) (some t) g h e = (q, t, refl, refl, ground arith, ground arith)

pub is_live-some : (ns : List Node) (p : ℕ) → is_live ns p ≡ true → (n : Node) × (get p ns ≡ some n)
is_live-some ns p h = elim (Option-cases (get p ns)) [ inl e ↦ absurd (ground arith) | inr s ↦ s ]

is_null-none : (o : Option Str) → is_null o ≡ true → o ≡ none
is_null-none none h = refl
is_null-none (some s) h = absurd (ground arith)

pub unhash_name-nameless :
    (p : ℕ) (f : Fuse) (n : Node)
    → get p f.nodes ≡ some n
    → is_null n.name ≡ true
    → unhash_name p f ≡ ok tt f
unfolding unhash_name
unhash_name-nameless p f n e z = rw (e, is_null-none n.name z) refl

-- a node without lookups: `unhash_name(f, node); unref_node(f, node);`
forgets :
    (p : ℕ) (f : Fuse) (n : Node)
    → (p == root_id) ≡ false
    → get p f.nodes ≡ some n
    → IsTree (one_at p) (one_at p) f
    → (f' : Fuse) × ((unhash_name p >> unref_node p) f ≡ ok tt f') × IsWellFormed f'
forgets p f n r e t = elim (Bool-cases (is_null n.name)) [
  | inl z ↦
      let (f', u, t') = unref_nameless p f n e z t in
      (f', ap (λ r. and_then r (λ _. unref_node p)) (unhash_name-nameless p f n e z) ∙ u, t')
  | inr z ↦
      let v = t.each p n e in
      let i = ap (λ q. q == root_id) (get-nodeid p f.nodes n e) ∙ r in
      let (q, s, a, b, o, l) =
        placed-named (is_live f.nodes) n.nodeid n.parent n.name
          (placed-parented (is_live f.nodes) n.nodeid n.parent n.name i z v.placement) z
          v.placement in
      let (m, e') = is_live-some f.nodes q l in
      let o' : (q == p) ≡ false = ap (λ r. q == r) (sym (get-nodeid p f.nodes n e)) ∙ o in
      let more = λ (r : ℕ). (if r == q then 1 else 0) + one_at p r in
      let h =
        unhash_name-Unhashed more (one_at p) (one_at p) p q s f n m (λ r. refl)
          (ap (λ b. if b then 1 else 0) o') e a b o' e' t in
      let (f', u, t') = unref_nameless p h.after (clear_name n) h.stays refl h.tree in
      (f', ap (λ r. and_then r (λ _. unref_node p)) h.runs ∙ u, t')
]

-- In a well-formed tree, forgetting no more lookups of a node other than the root than the kernel
-- has of it, at least one, ends with a well-formed tree: no assertion fails and no freed node is
-- read. A node that keeps lookups stays with those that are left.
pub forget_node-IsWellFormed :
    (p k : ℕ) (f : Fuse) (n : Node)
    → (p == root_id) ≡ false
    → get p f.nodes ≡ some n
    → 1 ≤ n.nlookup
    → k ≤ n.nlookup
    → IsWellFormed f
    → (f' : Fuse) × (forget_node p k f ≡ ok tt f')
      × IsWellFormed f'
      × (k < n.nlookup → get p f'.nodes ≡ some (drop_lookups k n))
unfolding forget_node
forget_node-IsWellFormed p k f n r e h l t =
    let g = get_node_nocheck-found nothing nothing f p n t e in
    let f1 = less_known p k f in
    let e1 =
      get-modify_same p (drop_lookups k) f.nodes (λ n. refl) ∙ ap (map_node (drop_lookups k)) e in
    elim (Bool-cases (n.nlookup - k == 0)) [
      | inr z ↦ (
        f1,
        rw (r, g, e, le→leb k n.nlookup l, e1, z) refl,
        with_lookups-IsTree p (λ x. x - k) f n nothing (λ q o. refl) (ground arith)
            (λ i. ground arith) e t,
        (λ i. e1),
      )
      | inl z ↦
          let t1 =
            with_lookups-IsTree p (λ x. x - k) f n (one_at p)
              (λ q o. ap (λ b. if b then 1 else 0) o) (ground arith)
              (λ i. ground (arith, ==_refl p)) e t in
          let (f', u, t') = forgets p f1 (drop_lookups k n) r e1 t1 in
          (f', rw (r, g, e, le→leb k n.nlookup l, e1, z) u, t', (λ i. absurd (ground arith)))
    ]
