-- ===== src/Nodes/Unhash.antt =====
-- A node loses its name: `unhash_name` of fuse-2.8.5/lib/fuse.c.

use mathlib.Core.Option.{some-injective}
use fuse_nt.Prelude.{
  ==_flip, ℕ, ◌≤◌, ==_iff, ◌≡◌, refl, sym, ap, ◌∙◌, true, false, ◌&&◌, none, some, ◌==◌,
  if◌then◌else◌, arith, Bool-cases, inl, inr, ==_refl,
}
use fuse_nt.Prelude.Memory.{Str}
use fuse_nt.Prelude.Run.{ok}
use fuse_nt.Nodes.{
  Node, Fuse, get, modify, erase, remove_first, at_index, drop_ref, unref_node, clear_name,
  name_hash, unhash_name,
}
use fuse_nt.Nodes.Count.{
  map_node, get-erase, count, at, has_id, get-nodeid, get-modify_same, get-modify_other,
  get-modify_cases, occurs, occurs-remove_first, contains-occurs,
}
use fuse_nt.Nodes.Invariant.{IsTree, IsNode, is_live, in_chain, child_of}
use fuse_nt.Nodes.Unref.{
  IsMore, IsMore-other, count-get, count_moved, count-modify_same, is_live-modify,
}
use fuse_nt.Nodes.Stays.{Stays, Stays-same, Stays-drop}
use fuse_nt.Nodes.Free.{freed, still, gone, unref_node-Unreferenced}
use fuse_nt.Nodes.Order.{unref_node-clear}

-- the tables and the nodes when a name is gone, but for the parent's reference
abbrev pub cleared : ℕ → ℕ → Str → Fuse → Fuse
cleared p q s f = record f {
  name_table = at_index (name_hash f.name_table_size q s) (remove_first p) f.name_table;
  nodes = modify p clear_name f.nodes;
}

-- the one chain of a node with a name
pub in_chain-at :
    (size h r p q : ℕ) (s : Str) (n : Node)
    → n.nodeid ≡ p
    → n.parent ≡ some q
    → n.name ≡ some s
    → at r (in_chain size h) n ≡ (h == name_hash size q s && r == p)
in_chain-at size h r p q s n z a b =
    rw (a, b, z) (ap (λ b. h == name_hash size q s && b) (==_flip p r))

module _ (more less forgotten : ℕ → ℕ) (p q : ℕ) (s : Str) (f : Fuse) where
  cleared-names :
      (n : Node)
      → get p f.nodes ≡ some n
      → n.parent ≡ some q
      → n.name ≡ some s
      → IsTree less forgotten f
      → (h r : ℕ)
      → occurs r ((cleared p q s f).name_table h)
        ≡ count (at r (in_chain f.name_table_size h)) (modify p clear_name f.nodes)
  cleared-names n e a b t h r =
      let z = get-nodeid p f.nodes n e in
      let c =
        count_moved (at r (in_chain f.name_table_size h)) p clear_name f.nodes n (t.unique p) e in
      let d = occurs-remove_first p r (f.name_table h) in
      let x = t.names h r in
      let y = in_chain-at f.name_table_size h r p q s n z a b in
      elim (Bool-cases (h == name_hash f.name_table_size q s)) [
        | inl k ↦ elim (Bool-cases (r == p)) [
          | inl l ↦ rw k (ground (arith, c, d, x, y, k, l))
          | inr l ↦ rw k (ground (arith, c, d, x, y, k, l))
        ]
        | inr k ↦ rw k (ground (arith, c, x, y, k))
      ]

  cleared-each :
      (n : Node)
      → IsMore q more less
      → get p f.nodes ≡ some n
      → n.parent ≡ some q
      → n.name ≡ some s
      → (q == p) ≡ false
      → IsTree less forgotten f
      → (r : ℕ) (n' : Node) → get r (modify p clear_name f.nodes) ≡ some n'
      → IsNode
          (is_live f.nodes)
          (count (child_of r) (modify p clear_name f.nodes))
          (more r)
          (forgotten r)
          n'
  cleared-each n m e a b o t r n' e' =
      let c = count_moved (child_of r) p clear_name f.nodes n (t.unique p) e in
      elim (get-modify_cases p r clear_name f.nodes n' (λ n. refl) e') [
        | inr (d, e'') ↦
            let v = t.each r n' e'' in
            record {
              placement = v.placement;
              refs =
                  let y : child_of r n ≡ (r == q) = rw a (==_flip q r) in
                  ground (arith, v.refs, c, m r, y);
              referenced = v.referenced;
              known = v.known;
              unlocked = v.unlocked;
            }
        | inl (n'', d, e'', k) ↦
            let n0 = some-injective _ _ (sym e ∙ e'') in
            let v = t.each p n e in
            let c' = count_moved (child_of p) p clear_name f.nodes n (t.unique p) e in
            let y : child_of p n ≡ false = rw a o in
            rw (k, d, ← n0)
              (record {
                placement = refl;
                refs =
                    ground (arith, v.refs, c', y, IsMore-other q p more less m (==_flip p q ∙ o));
                referenced = v.referenced;
                known = λ i. absurd (ground arith);
                unlocked = v.unlocked;
              })
      ]

  cleared-IsTree :
      (n : Node)
      → IsMore q more less
      → get p f.nodes ≡ some n
      → n.parent ≡ some q
      → n.name ≡ some s
      → (q == p) ≡ false
      → IsTree less forgotten f
      → IsTree more forgotten (cleared p q s f)
  cleared-IsTree n m e a b o t = record {
    unique = λ r. rw (count-modify_same (has_id r) p clear_name f.nodes (λ n. refl)) (t.unique r);
    ids = λ h r. rw (count-modify_same (has_id r) p clear_name f.nodes (λ n. refl)) (t.ids h r);
    names = cleared-names n e a b t;
    each = λ r n' e'.
        rw (is_live-modify p clear_name f.nodes (λ n. refl)) (cleared-each n m e a b o t r n' e');
  }

  -- what `unhash_name` leaves of a node with a name
  pub record Unhashed (n : Node) : Type 0 where
    pub after : Fuse
    pub runs : unhash_name p f ≡ ok tt after
    pub tree : IsTree less forgotten after
    pub stays : get p after.nodes ≡ some (clear_name n)
    pub others :
        (r : ℕ) (d : Node)
        → (r == p) ≡ false
        → get r f.nodes ≡ some d
        → 1 ≤ d.nlookup
        → Stays after.nodes r d
    pub size_stays : after.noforget ≡ f.noforget
    pub same_mem : after.mem ≡ f.mem

  unhash_name-unref :
      (n m : Node)
      → get p f.nodes ≡ some n
      → n.parent ≡ some q
      → n.name ≡ some s
      → (q == p) ≡ false
      → get q f.nodes ≡ some m
      → IsTree less forgotten f
      → unhash_name p f ≡ unref_node q (cleared p q s f)
  unfolding unhash_name
  unhash_name-unref n m e a b o e' t =
      let z = get-nodeid q f.nodes m e' in
      let h = name_hash f.name_table_size q s in
      let x = t.names h p in
      let y = in_chain-at f.name_table_size h p p q s n (get-nodeid p f.nodes n e) a b in
      let w : at p (in_chain f.name_table_size h) n ≡ true = rw (y, ==_refl h, ==_refl p) refl in
      let c = count-get (at p (in_chain f.name_table_size h)) p f.nodes n e w in
      rw (e, a, b, e', z, contains-occurs p (f.name_table h) (omega arith))
        (unref_node-clear p q (record f { name_table = at_index h (remove_first p) f.name_table })
          o)

  pub unhash_name-Unhashed :
      (n m : Node)
      → IsMore q more less
      → forgotten q ≡ 0
      → get p f.nodes ≡ some n
      → n.parent ≡ some q
      → n.name ≡ some s
      → (q == p) ≡ false
      → get q f.nodes ≡ some m
      → IsTree less forgotten f
      → Unhashed n
  unhash_name-Unhashed n m mo fo e a b o e' t =
      let g = cleared p q s f in
      let r = unhash_name-unref n m e a b o e' t in
      let c = get-modify_other p q clear_name f.nodes (λ n. refl) o ∙ e' in
      let k = get-modify_same p clear_name f.nodes (λ n. refl) ∙ ap (map_node clear_name) e in
      let o' = ==_flip p q ∙ o in
      elim (unref_node-Unreferenced more less forgotten q g m mo fo c
        (cleared-IsTree n mo e a b o t)) [
          | still _ _ u t' ↦ record {
            after = record g { nodes = modify q drop_ref g.nodes };
            runs = r ∙ u;
            tree = t';
            stays = get-modify_other q p drop_ref g.nodes (λ n. refl) o' ∙ k;
            others = λ r d h i l.
                Stays-drop g.nodes r q d
                  (get-modify_other p r clear_name f.nodes (λ n. refl) h ∙ i);
            size_stays = refl;
            same_mem = refl;
          }
          | gone m0 e0 z0 u t' ↦ record {
            after = freed q g;
            runs = r ∙ u;
            tree = t';
            stays = get-erase q p g.nodes ∙ ap (λ b. if b then none else get p g.nodes) o' ∙ k;
            others = λ r d h i l.
                let i' = get-modify_other p r clear_name f.nodes (λ n. refl) h ∙ i in
                elim (Bool-cases (r == q)) [
                  | inr j ↦
                      Stays-same (erase q g.nodes) r d
                        (get-erase q r g.nodes ∙ ap (λ b. if b then none else get r g.nodes) j ∙ i')
                  | inl j ↦
                      let w = ap (λ x. get x g.nodes) ((==_iff r q).0 j) in
                      let d0 = some-injective _ _ (sym i' ∙ (w ∙ e0)) in
                      let z = ap (λ (x : Node). x.nlookup) d0 in absurd (omega arith)
                ];
            size_stays = refl;
            same_mem = refl;
          }
        ]
