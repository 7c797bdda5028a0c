-- ===== src/Nodes/Newborn.antt =====
-- A node joins the tables: what `find_node` of fuse-2.8.5/lib/fuse.c makes keeps the invariant.
use fuse_nt.Prelude.{
  ℕ, ◌≤◌, ◌%◌, ◌≡◌, refl, sym, ap, ◌∙◌, Bool, true, false, Option, none, some, List, [], ◌∷◌, ◌==◌,
  if◌then◌else◌, arith, Bool-cases, inl, inr, ==_refl, ==_iff, ==_flip,
}
use mathlib.Core.Option.{some-injective}
use fuse_nt.Prelude.Memory.{Str, Mem}
use fuse_nt.Nodes.{Node, Fuse, get, modify, erase, add_ref, at_index, name_hash}
use fuse_nt.Nodes.Count.{count, at, has_id, get-none, get-modify_cases, count-at, occurs}
use fuse_nt.Nodes.Invariant.{
  IsNode, IsWellFormed, nothing, is_live, in_chain, child_of, is_parent, placed,
}
use fuse_nt.Nodes.Unref.{count-modify_same, is_live-modify}
use fuse_nt.Nodes.Lookup.{live_if-counted}
use fuse_nt.Nodes.Names.{count-at-id}
use fuse_nt.Nodes.Ops.{fresh_node, name_under, add_lookup}

-- changes of a pointer to no node
pub modify-missing :
    (p : ℕ) (g : Node → Node) (ns : List Node) → count (has_id p) ns ≡ 0 → modify p g ns ≡ ns
modify-missing p g [] h = refl
modify-missing p g (n ∷ ns) h =
    let e : (n.nodeid == p) ≡ false = ground arith in
    rw e (ap (λ ms. n ∷ ms) (modify-missing p g ns (ground arith)))

pub erase-missing : (p : ℕ) (ns : List Node) → count (has_id p) ns ≡ 0 → erase p ns ≡ ns
erase-missing p [] h = refl
erase-missing p (n ∷ ns) h =
    let e : (n.nodeid == p) ≡ false = ground arith in
    rw e (ap (λ ms. n ∷ ms) (erase-missing p ns (ground arith)))

-- a counted node has a pointer
count-pointer :
    (q : Node → Bool) (ns : List Node) → 1 ≤ count q ns → (p : ℕ) × (1 ≤ count (at p q) ns)
count-pointer q [] h = absurd (omega arith)
count-pointer q (n ∷ ns) h = elim (Bool-cases (q n)) [
  | inl e ↦ (n.nodeid, ground (arith, e, ==_refl n.nodeid))
  | inr e ↦ let (p, l) = count-pointer q ns (ground arith) in (p, ground arith)
]

pub placed-parent :
    (live : ℕ → Bool) (id p : ℕ) (o : Option ℕ) (s : Option Str)
    → is_parent p o ≡ true
    → placed live id o s ≡ true
    → live p ≡ true
placed-parent live id p none s h e = absurd (ground arith)
placed-parent live id p (some q) none h e = absurd (ground arith)
placed-parent live id p (some q) (some s) h e =
    let e' : live q ≡ true = ground arith in sym (ap live ((==_iff q p).0 h)) ∙ e'

-- A pointer to no node is nobody's parent.
unborn-childless :
    (f : Fuse) (id : ℕ) → IsWellFormed f → get id f.nodes ≡ none → count (child_of id) f.nodes ≡ 0
unborn-childless f id t e = elim (Bool-cases (count (child_of id) f.nodes == 0)) [
  | inl z ↦ (==_iff _ 0).0 z
  | inr z ↦
      let (p, l) = count-pointer (child_of id) f.nodes (ground arith) in
      let c = count-at-id (child_of id) p f.nodes in
      let (n, g) = live_if-counted p f.nodes (omega arith) in
      let k = count-at (child_of id) p f.nodes n (t.unique p) g in
      let y : child_of id n ≡ true = ground (arith, k, l) in
      let w =
        placed-parent (is_live f.nodes) n.nodeid id n.parent n.name y (t.each p n g).placement in
      let x : is_live f.nodes id ≡ false = rw e refl in absurd (ground arith)
]

pub placed_mono :
    (live live' : ℕ → Bool) (id : ℕ) (o : Option ℕ) (s : Option Str)
    → ((q : ℕ) → live q ≡ true → live' q ≡ true)
    → placed live id o s ≡ true
    → placed live' id o s ≡ true
placed_mono live live' id none none m e = refl
placed_mono live live' id none (some s) m e = e
placed_mono live live' id (some p) none m e = e
placed_mono live live' id (some p) (some s) m e = let y = m p (ground arith) in ground arith

abbrev pub newborn : ℕ → ℕ → Bool → ℕ → Str → Node
newborn id generation noforget parent name =
    add_lookup (name_under parent name (fresh_node id generation noforget))

-- the state when the node is there
abbrev pub joined : ℕ → ℕ → ℕ → Str → Mem → Fuse → Fuse
joined id generation parent name mem f = record f {
  nodes = newborn id generation f.noforget parent name ∷ modify parent add_ref f.nodes;
  name_table = at_index (name_hash f.name_table_size parent name) (λ ps. id ∷ ps) f.name_table;
  id_table = at_index (id % f.id_table_size) (λ ps. id ∷ ps) f.id_table;
  ctr = id;
  generation = generation;
  mem = mem;
}

module _ (id generation parent : ℕ) (name : Str) (mem : Mem) (f : Fuse) (d : Node)
    (t : IsWellFormed f) (unused : get id f.nodes ≡ none) (e : get parent f.nodes ≡ some d) where
  pub apart : (parent == id) ≡ false
  apart = elim (Bool-cases (parent == id)) [
    | inr h ↦ h
    | inl h ↦
        let w = sym e ∙ (ap (λ p. get p f.nodes) ((==_iff parent id).0 h) ∙ unused) in
        absurd (ground arith)
  ]

  joined-ids :
      (h p : ℕ)
      → occurs p ((joined id generation parent name mem f).id_table h) ≡ (
          if h == p % f.id_table_size
          then count (has_id p) (joined id generation parent name mem f).nodes
          else 0)
  joined-ids h p =
      let c = count-modify_same (has_id p) parent add_ref f.nodes (λ n. refl) in
      let x = t.ids h p in
      elim (Bool-cases (id == p)) [
        | inr k ↦ elim (Bool-cases (h == id % f.id_table_size)) [
          | inl l ↦ rw (c, k, l) (ground (arith, x, k))
          | inr l ↦ rw (c, k, l) (ground (arith, x, k))
        ]
        | inl k ↦
            let k' = (==_iff id p).0 k in
            let z = get-none id f.nodes unused in
            let x' = t.ids h id in
            rw (c, k, ← k')
              (elim (Bool-cases (h == id % f.id_table_size)) [
                | inl l ↦ rw l (ground (arith, x', z, ==_refl id))
                | inr l ↦ rw l (ground (arith, x'))
              ])
      ]

  joined-names :
      (h p : ℕ)
      → occurs p ((joined id generation parent name mem f).name_table h)
        ≡ count (at p (in_chain f.name_table_size h)) (joined id generation parent name mem f).nodes
  joined-names h p =
      let c =
        count-modify_same (at p (in_chain f.name_table_size h)) parent add_ref f.nodes
          (λ n. refl) in
      let x = t.names h p in
      elim (Bool-cases (h == name_hash f.name_table_size parent name)) [
        | inl l ↦ rw (c, l) (ground (arith, x))
        | inr l ↦ rw (c, l) (ground (arith, x))
      ]

  is_live-joined :
      (q : ℕ)
      → is_live f.nodes q ≡ true
      → is_live (joined id generation parent name mem f).nodes q ≡ true
  is_live-joined q h = elim (Bool-cases (id == q)) [
    | inl k ↦ rw k refl
    | inr k ↦ rw k (ap (λ live. live q) (is_live-modify parent add_ref f.nodes (λ n. refl)) ∙ h)
  ]

  joined-each :
      (q : ℕ) (n : Node)
      → get q (joined id generation parent name mem f).nodes ≡ some n
      → IsNode
          (is_live (joined id generation parent name mem f).nodes)
          (count (child_of q) (joined id generation parent name mem f).nodes)
          (nothing q)
          (nothing q)
          n
  joined-each q n g =
      let live = is_live (joined id generation parent name mem f).nodes in
      let c = count-modify_same (child_of q) parent add_ref f.nodes (λ n. refl) in
      elim (Bool-cases (id == q)) [
        | inl k ↦
            let k' = (==_iff id q).0 k in
            let n0 = some-injective _ _ (
              sym (
                ap
                  (λ b.
                    if b
                    then some (newborn id generation f.noforget parent name)
                    else get q (modify parent add_ref f.nodes))
                  k)
              ∙ g) in
            let z = unborn-childless f id t unused in
            let c' = count-modify_same (child_of id) parent add_ref f.nodes (λ n. refl) in
            let l = is_live-joined parent (rw e refl) in
            rw (← k', ← n0)
              (record {
                placement = ground (arith, apart, l);
                refs = ground (arith, z, c', apart);
                referenced = omega arith;
                known = λ i. omega arith;
                unlocked = refl;
              })
        | inr k ↦
            let g' =
              sym (
                ap
                  (λ b.
                    if b
                    then some (newborn id generation f.noforget parent name)
                    else get q (modify parent add_ref f.nodes))
                  k)
              ∙ g in
            elim (get-modify_cases parent q add_ref f.nodes n (λ n. refl) g') [
              | inr (o, g'') ↦
                  let v = t.each q n g'' in
                  record {
                    placement =
                        placed_mono (is_live f.nodes) live n.nodeid n.parent n.name is_live-joined
                          v.placement;
                    refs = ground (arith, v.refs, c, ==_flip parent q, o);
                    referenced = v.referenced;
                    known = v.known;
                    unlocked = v.unlocked;
                  }
              | inl (m, o, g'', s) ↦
                  let n0 = some-injective _ _ (sym e ∙ g'') in
                  let v = t.each parent d e in
                  let c' = count-modify_same (child_of parent) parent add_ref f.nodes (λ n. refl) in
                  rw (s, o, ← n0)
                    (record {
                      placement =
                          placed_mono (is_live f.nodes) live d.nodeid d.parent d.name is_live-joined
                            v.placement;
                      refs = ground (arith, v.refs, c', ==_refl parent);
                      referenced = omega arith;
                      known = v.known;
                      unlocked = v.unlocked;
                    })
            ]
      ]

  pub joined-IsWellFormed : IsWellFormed (joined id generation parent name mem f)
  joined-IsWellFormed = record {
    unique = λ p.
        let c = count-modify_same (has_id p) parent add_ref f.nodes (λ n. refl) in
        let u = t.unique p in
        let z = get-none id f.nodes unused in
        elim (Bool-cases (id == p)) [
          | inr k ↦ rw (c, k) (omega arith)
          | inl k ↦ rw (c, k, ← (==_iff id p).0 k, z) (omega arith)
        ];
    ids = joined-ids;
    names = joined-names;
    each = joined-each;
  }
