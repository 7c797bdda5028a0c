-- ===== src/Nodes/Renamed.antt =====
-- A node without name gets one: what `hash_name` of fuse-2.8.5/lib/fuse.c does in `rename_node`.
use mathlib.Core.Option.{some-injective}
use fuse_nt.Prelude.{
  ℕ, ◌+◌, ◌≤◌, ◌≡◌, refl, sym, ap, ◌∙◌, Bool, true, false, none, some, List, ◌∷◌, ◌==◌,
  if◌then◌else◌, arith, Bool-cases, inl, inr, ==_refl, ==_flip,
}
use fuse_nt.Prelude.Memory.{Str, Mem, next_alloc}
use fuse_nt.Prelude.Run.{ok, err}
use fuse_nt.Nodes.{Node, Fuse, get, modify, add_ref, at_index, name_hash}
use fuse_nt.Nodes.Count.{
  count, at, has_id, get-nodeid, get-modify_cases, get-modify_same, get-modify_other, occurs,
  map_node,
}
use fuse_nt.Nodes.Invariant.{IsNode, IsWellFormed, nothing, is_live, in_chain, child_of}
use fuse_nt.Nodes.Unref.{count-modify_same, count_moved, is_live-modify}
use fuse_nt.Nodes.Lookup.{get_node_nocheck-found}
use fuse_nt.Nodes.Ops.{name_under, hash_name}

-- the state when the node has its name
abbrev pub renamed_to : ℕ → ℕ → Str → Mem → Fuse → Fuse
renamed_to p parent name mem f = record f {
  nodes = modify p (name_under parent name) (modify parent add_ref f.nodes);
  name_table = at_index (name_hash f.name_table_size parent name) (λ ps. p ∷ ps) f.name_table;
  mem = mem;
}

module _ (p parent : ℕ) (name : Str) (mem : Mem) (f : Fuse) (n d : Node) (t : IsWellFormed f)
    (e : get p f.nodes ≡ some n) (nameless : n.name ≡ none) (parentless : n.parent ≡ none)
    (looked_up : 1 ≤ n.nlookup) (there : get parent f.nodes ≡ some d)
    (apart : (parent == p) ≡ false) where
  abbrev counted : List Node
  counted = modify parent add_ref f.nodes

  counted-same :
      (q : Node → Bool) → ((m : Node) → q (add_ref m) ≡ q m) → count q counted ≡ count q f.nodes
  counted-same q i = count-modify_same q parent add_ref f.nodes i

  still_there : get p counted ≡ some n
  still_there = get-modify_other parent p add_ref f.nodes (λ m. refl) (==_flip p parent ∙ apart) ∙ e

  one_node : count (has_id p) counted ≤ 1
  one_node = rw (counted-same (has_id p) (λ m. refl)) (t.unique p)

  renamed-count :
      (q : Node → Bool)
      → ((m : Node) → q (add_ref m) ≡ q m)
      → q n ≡ false
      → count q (renamed_to p parent name mem f).nodes
        ≡ count q f.nodes + (if q (name_under parent name n) then 1 else 0)
  renamed-count q i z =
      let c = count_moved q p (name_under parent name) counted n one_node still_there in
      let c' = counted-same q i in ground arith

  renamed-ids_same :
      (q : ℕ) → count (has_id q) (renamed_to p parent name mem f).nodes ≡ count (has_id q) f.nodes
  renamed-ids_same q =
      count-modify_same (has_id q) p (name_under parent name) counted (λ m. refl)
      ∙ counted-same (has_id q) (λ m. refl)

  renamed-names :
      (h q : ℕ)
      → occurs q ((renamed_to p parent name mem f).name_table h)
        ≡ count (at q (in_chain f.name_table_size h)) (renamed_to p parent name mem f).nodes
  renamed-names h q =
      let z : at q (in_chain f.name_table_size h) n ≡ false = rw parentless refl in
      let c = renamed-count (at q (in_chain f.name_table_size h)) (λ m. refl) z in
      let x = t.names h q in
      elim (Bool-cases (h == name_hash f.name_table_size parent name)) [
        | inl l ↦ rw (c, l, get-nodeid p f.nodes n e) (ground (arith, x))
        | inr l ↦ rw (c, l) (ground (arith, x))
      ]

  is_live-renamed : is_live (renamed_to p parent name mem f).nodes ≡ is_live f.nodes
  is_live-renamed =
      is_live-modify p (name_under parent name) counted (λ m. refl)
      ∙ is_live-modify parent add_ref f.nodes (λ m. refl)

  renamed-each :
      (q : ℕ) (m : Node)
      → get q (renamed_to p parent name mem f).nodes ≡ some m
      → IsNode
          (is_live f.nodes)
          (count (child_of q) f.nodes + (if parent == q then 1 else 0))
          (nothing q)
          (nothing q)
          m
  renamed-each q m g =
      elim (get-modify_cases p q (name_under parent name) counted m (λ m. refl) g) [
        | inl (n', s, g', u) ↦
            let n0 = some-injective _ _ (sym still_there ∙ g') in
            let v = t.each p n e in
            rw (u, s, ← n0, apart)
              (record {
                placement =
                    let l : is_live f.nodes parent ≡ true = rw there refl in
                    rw (get-nodeid p f.nodes n e, apart, l) refl;
                refs = ground (arith, v.refs);
                referenced = v.referenced;
                known = λ i. omega arith;
                unlocked = v.unlocked;
              })
        | inr (o, g') ↦ elim (get-modify_cases parent q add_ref f.nodes m (λ m. refl) g') [
          | inr (o', g'') ↦
              let v = t.each q m g'' in
              rw (==_flip parent q, o')
                (record {
                  placement = v.placement;
                  refs = ground (arith, v.refs);
                  referenced = v.referenced;
                  known = v.known;
                  unlocked = v.unlocked;
                })
          | inl (d', s, g'', u) ↦
              let d0 = some-injective _ _ (sym there ∙ g'') in
              let v = t.each parent d there in
              rw (u, s, ← d0, ==_refl parent)
                (record {
                  placement = v.placement;
                  refs = ground (arith, v.refs);
                  referenced = omega arith;
                  known = v.known;
                  unlocked = v.unlocked;
                })
        ]
      ]

  pub renamed-IsWellFormed : IsWellFormed (renamed_to p parent name mem f)
  renamed-IsWellFormed = record {
    unique = λ q. rw (renamed-ids_same q) (t.unique q);
    ids = λ h q. rw (renamed-ids_same q) (t.ids h q);
    names = renamed-names;
    each = λ q m g.
        let z : child_of q n ≡ false = rw parentless refl in
        rw (is_live-renamed, renamed-count (child_of q) (λ m. refl) z) (renamed-each q m g);
  }

  pub renamed-get : get p (renamed_to p parent name mem f).nodes ≡ some (name_under parent name n)
  renamed-get =
      get-modify_same p (name_under parent name) counted (λ m. refl)
      ∙ ap (map_node (name_under parent name)) still_there

  pub hash_name-renamed :
      next_alloc f.mem ≡ (true, mem)
      → hash_name p parent name f ≡ ok tt (renamed_to p parent name mem f)
  unfolding hash_name
  hash_name-renamed a = rw (get_node_nocheck-found nothing nothing f parent d t there, a) refl

  pub hash_name-not_copied :
      next_alloc f.mem ≡ (false, mem) → hash_name p parent name f ≡ err (record f { mem = mem })
  unfolding hash_name
  hash_name-not_copied a = rw (get_node_nocheck-found nothing nothing f parent d t there, a) refl
