-- ===== src/Nodes/Lookup.antt =====
-- The id table finds just the nodes that are there: `get_node_nocheck` of fuse-2.8.5/lib/fuse.c.
use fuse_nt.Prelude.{
  ℕ, ◌≤◌, ◌%◌, ◌≡◌, refl, ap, ◌∙◌, false, none, some, List, [], ◌∷◌, ◌==◌, if◌then◌else◌, arith,
  Bool-cases, Option-cases, inl, inr, ==_refl, ==_iff,
}
use fuse_nt.Nodes.{Node, Fuse, get, contains, found, missing, found_if, test_id, get_node_nocheck}
use fuse_nt.Nodes.Count.{count, has_id, get-nodeid, get-some, get-none, occurs, contains-occurs}
use fuse_nt.Nodes.Invariant.{IsTree, is_live}

contains-zero : (p : ℕ) (ps : List ℕ) → occurs p ps ≡ 0 → contains p ps ≡ false
contains-zero p [] h = refl
contains-zero p (q ∷ qs) h = let ih = contains-zero p qs in ground arith

-- each pointer of a chain leads to a node
abbrev pub AreLive : List Node → List ℕ → Type 0
AreLive ns ps = (p : ℕ) → 1 ≤ occurs p ps → (n : Node) × (get p ns ≡ some n)

pub AreLive-tail : (ns : List Node) (p : ℕ) (ps : List ℕ) → AreLive ns (p ∷ ps) → AreLive ns ps
AreLive-tail ns p ps a q h = a q (ground arith)

found_if-id :
    (id : ℕ) (ns : List Node) (ps : List ℕ)
    → AreLive ns ps
    → found_if (test_id id) ns ps ≡ (if contains id ps then found id else missing)
found_if-id id ns [] a = refl
found_if-id id ns (p ∷ ps) a =
    let (n, e) = a p (ground arith) in
    let z = get-nodeid p ns n e in
    let ih = found_if-id id ns ps (AreLive-tail ns p ps a) in
    elim (Bool-cases (p == id)) [
      | inl h ↦ rw (e, z, h) (ap found ((==_iff p id).0 h))
      | inr h ↦ rw (e, z, h) ih
    ]

pub live_if-counted :
    (p : ℕ) (ns : List Node) → 1 ≤ count (has_id p) ns → (n : Node) × (get p ns ≡ some n)
live_if-counted p ns h = elim (Option-cases (get p ns)) [
  | inl e ↦ let z = get-none p ns e in absurd (omega arith)
  | inr s ↦ s
]

module _ (extra forgotten : ℕ → ℕ) (f : Fuse) where
  id_chain-AreLive : (h : ℕ) → IsTree extra forgotten f → AreLive f.nodes (f.id_table h)
  id_chain-AreLive h t p o = let x = t.ids h p in live_if-counted p f.nodes (ground arith)

  -- Of a node that is there, the id table gives the pointer.
  pub get_node_nocheck-found :
      (id : ℕ) (n : Node)
      → IsTree extra forgotten f
      → get id f.nodes ≡ some n
      → get_node_nocheck f id ≡ found id
  unfolding get_node_nocheck
  get_node_nocheck-found id n t e =
      let h = id % f.id_table_size in
      let x = t.ids h id in
      let c = get-some id f.nodes n e in
      let o = contains-occurs id (f.id_table h) (ground (arith, x, c, ==_refl h)) in
      found_if-id id f.nodes (f.id_table h) (id_chain-AreLive h t) ∙ rw o refl

  -- Of an id without a node, it gives none.
  pub get_node_nocheck-missing :
      (id : ℕ) → IsTree extra forgotten f → get id f.nodes ≡ none → get_node_nocheck f id ≡ missing
  unfolding get_node_nocheck
  get_node_nocheck-missing id t e =
      let h = id % f.id_table_size in
      let x = t.ids h id in
      let c = get-none id f.nodes e in
      let o = contains-zero id (f.id_table h) (ground arith) in
      found_if-id id f.nodes (f.id_table h) (id_chain-AreLive h t) ∙ rw o refl

  -- In a tree that satisfies the invariant, whatever references are on their way, looking up an id
  -- in the id table gives the node of that id where there is one, and nothing where there is none;
  -- no freed node is read.
  pub get_node_nocheck-get :
      (id : ℕ)
      → IsTree extra forgotten f
      → get_node_nocheck f id ≡ (if is_live f.nodes id then found id else missing)
  get_node_nocheck-get id t = elim (Option-cases (get id f.nodes)) [
    | inl e ↦ rw e (get_node_nocheck-missing id t e)
    | inr (n, e) ↦ rw e (get_node_nocheck-found id n t e)
  ]

  -- a node that is not in its chain yet does not disturb the others
  pub get_node_nocheck-added :
      (id : ℕ) (m n : Node)
      → IsTree extra forgotten f
      → get id f.nodes ≡ some n
      → get_node_nocheck (record f { nodes = m ∷ f.nodes }) id ≡ found id
  unfolding get_node_nocheck
  get_node_nocheck-added id m n t e =
      let h = id % f.id_table_size in
      let x = t.ids h id in
      let c = get-some id f.nodes n e in
      let o = contains-occurs id (f.id_table h) (ground (arith, x, c, ==_refl h)) in
      let live : AreLive (m ∷ f.nodes) (f.id_table h) = λ q u. elim (Bool-cases (m.nodeid == q)) [
        | inl k ↦ (m, rw k refl)
        | inr k ↦ let (n', e') = id_chain-AreLive h t q u in (n', rw k e')
      ] in
      found_if-id id (m ∷ f.nodes) (f.id_table h) live ∙ rw o refl
