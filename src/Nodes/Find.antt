-- ===== src/Nodes/Find.antt =====
-- `find_node` of fuse-2.8.5/lib/fuse.c gives the node of a name, which it makes if there is none.
use fuse_nt.Prelude.{
  ℕ, ◌+◌, ◌≤◌, ◌<◌, ◌%◌, ◌^◌, ◌≡◌, ◌⊎◌, refl, ap, ◌∙◌, true, false, none, some, ◌∷◌, ltb,
  if◌then◌else◌, arith, length, Bool-cases, inl, inr, ==_refl, ==_flip,
}
use fuse_nt.Prelude.Memory.{Str, Mem, next_alloc}
use fuse_nt.Prelude.Run.{ok, err, ◌>>◌, ◌>>=◌}
use fuse_nt.Nodes.{
  Node, Fuse, get, modify, add_ref, at_index, name_hash, lookup_node, found, missing,
  get_node_nocheck, hash_id, update,
}
use fuse_nt.Nodes.Count.{get-modify_same, get-none, map_node, has_id}
use fuse_nt.Nodes.Invariant.{IsWellFormed, nothing}
use fuse_nt.Nodes.Lookup.{get_node_nocheck-added}
use fuse_nt.Nodes.Names.{is_named, there, nowhere, lookup_node-LookedUpNode}
use fuse_nt.Nodes.NextId.{next_id-Fresh}
use fuse_nt.Nodes.Newborn.{
  modify-missing, erase-missing, newborn, apart, joined, joined-IsWellFormed,
}
use fuse_nt.Nodes.Forget.{with_lookups-IsTree, with_lookups}
use fuse_nt.Nodes.Unref.{count-modify_same}
use fuse_nt.Nodes.Remove.{is_named-some}
use fuse_nt.Nodes.Ops.{
  fresh_node, name_under, add_lookup, hash_name, find_node, next_id, id_rounds, make_with,
}

-- the node before it has a name
abbrev unnamed : ℕ → ℕ → Mem → Fuse → Fuse
unnamed id generation mem f = record f {
  nodes = fresh_node id generation f.noforget ∷ f.nodes;
  ctr = id;
  generation = generation;
  mem = mem;
}

-- the node with its name, outside the id table
abbrev named_node : ℕ → ℕ → ℕ → Str → Mem → Fuse → Fuse
named_node id generation parent name mem f = record (unnamed id generation mem f) {
  nodes =
      name_under parent name (fresh_node id generation f.noforget) ∷ modify parent add_ref f.nodes;
  name_table = at_index (name_hash f.name_table_size parent name) (λ ps. id ∷ ps) f.name_table;
}

module _ (id g parent : ℕ) (name : Str) (f : Fuse) (d : Node) (t : IsWellFormed f)
    (unused : get id f.nodes ≡ none) (e : get parent f.nodes ≡ some d) where
  -- the parent is found while the new node is in no table
  get_node_nocheck-unnamed :
      (mem : Mem) → get_node_nocheck (unnamed id g mem f) parent ≡ found parent
  get_node_nocheck-unnamed mem =
      let base = record f { ctr = id; generation = g; mem = mem } in
      let t' : IsWellFormed base = record {
        unique = t.unique;
        ids = t.ids;
        names = t.names;
        each = t.each;
      } in
      get_node_nocheck-added nothing nothing base parent (fresh_node id g f.noforget) d t' e

  hash_name-copy_failed :
      (mem mem' : Mem)
      → next_alloc mem ≡ (false, mem')
      → hash_name id parent name (unnamed id g mem f) ≡ err (unnamed id g mem' f)
  unfolding hash_name
  hash_name-copy_failed mem mem' a = rw (get_node_nocheck-unnamed mem, a) refl

  hash_name-named :
      (mem mem' : Mem)
      → next_alloc mem ≡ (true, mem')
      → hash_name id parent name (unnamed id g mem f) ≡ ok tt (named_node id g parent name mem' f)
  unfolding hash_name
  hash_name-named mem mem' a =
      let o = apart id g parent name mem f d t unused e in
      let z = get-none id f.nodes unused in
      let c = count-modify_same (has_id id) parent add_ref f.nodes (λ n. refl) in
      let m = modify-missing id (name_under parent name) (modify parent add_ref f.nodes) (c ∙ z) in
      rw (get_node_nocheck-unnamed mem, a, ==_flip id parent, o, ==_refl id, m) refl

-- what `find_node` does with a name
pub data FoundNode (f : Fuse) (parent : ℕ) (name : Str) : Type 0 where
  known :
      (p : ℕ) (n : Node) (f' : Fuse)
      → get p f.nodes ≡ some n
      → is_named parent name n ≡ true
      → find_node parent (some name) f ≡ ok p f'
      → IsWellFormed f'
      → get p f'.nodes ≡ some (add_lookup n)
      → FoundNode f parent name
  made :
      (id g : ℕ) (f' : Fuse)
      → ((p : ℕ) (n : Node) → get p f.nodes ≡ some n → is_named parent name n ≡ false)
      → get id f.nodes ≡ none
      → ((next_alloc f.mem).0 ≡ true) × ((next_alloc (next_alloc f.mem).1).0 ≡ true)
      → find_node parent (some name) f ≡ ok id f'
      → IsWellFormed f'
      → get id f'.nodes ≡ some (newborn id g f.noforget parent name)
      → FoundNode f parent name
  failed :
      (f' : Fuse)
      → ((p : ℕ) (n : Node) → get p f.nodes ≡ some n → is_named parent name n ≡ false)
      → ((next_alloc f.mem).0 ≡ false) ⊎ ((next_alloc (next_alloc f.mem).1).0 ≡ false)
      → find_node parent (some name) f ≡ err f'
      → IsWellFormed f'
      → f'.nodes ≡ f.nodes
      → FoundNode f parent name

module _ (parent : ℕ) (name : Str) (f : Fuse) (d : Node) (t : IsWellFormed f)
    (e : get parent f.nodes ≡ some d) where
  find_node-known :
      (p : ℕ) (n : Node)
      → lookup_node f parent name ≡ found p
      → get p f.nodes ≡ some n
      → is_named parent name n ≡ true
      → FoundNode f parent name
  unfolding find_node
  find_node-known p n r g i =
      let v = t.each p n g in
      let k = v.known (is_named-some parent name n.parent n.name i) in
      known p n (with_lookups p (λ x. x + 1) f) g i (rw r refl)
        (with_lookups-IsTree p (λ x. x + 1) f n nothing (λ q o. refl) (ground (arith, k))
          (λ j. omega arith) g t)
        (get-modify_same p add_lookup f.nodes (λ n. refl) ∙ ap (map_node add_lookup) g)

  -- the memory behind the two allocations
  abbrev mem1 : Mem
  mem1 = (next_alloc f.mem).1

  abbrev mem2 : Mem
  mem2 = (next_alloc mem1).1

  abbrev ready : Fuse
  ready = record f { mem = mem1 }

  ready-IsWellFormed : IsWellFormed ready
  ready-IsWellFormed = record { unique = t.unique; ids = t.ids; names = t.names; each = t.each }

  make_with-named :
      (id g : ℕ)
      → get id f.nodes ≡ none
      → next_id (id_rounds ready) ready ≡ ok id (record ready { ctr = id; generation = g })
      → next_alloc mem1 ≡ (true, mem2)
      → (make_with parent name true >>= λ p. update p add_lookup >> (λ f'. ok p f')) ready
        ≡ ok id (joined id g parent name mem2 f)
  unfolding hash_id
  make_with-named id g u r a =
      let z = get-none id f.nodes u in
      let c = count-modify_same (has_id id) parent add_ref f.nodes (λ n. refl) in
      let m = modify-missing id add_lookup (modify parent add_ref f.nodes) (c ∙ z) in
      rw (r, hash_name-named id g parent name f d t u e mem1 mem2 a, ==_refl id, m) refl

  make_with-copy_failed :
      (id g : ℕ)
      → get id f.nodes ≡ none
      → next_id (id_rounds ready) ready ≡ ok id (record ready { ctr = id; generation = g })
      → next_alloc mem1 ≡ (false, mem2)
      → (make_with parent name true >>= λ p. update p add_lookup >> (λ f'. ok p f')) ready
        ≡ err (record f { ctr = id; generation = g; mem = mem2 })
  make_with-copy_failed id g u r a =
      let z = get-none id f.nodes u in
      rw
        (
          r,
          hash_name-copy_failed id g parent name f d t u e mem1 mem2 a,
          ==_refl id,
          erase-missing id f.nodes z,
        )
        refl

  find_node-missing :
      lookup_node f parent name ≡ missing
      → find_node parent (some name) f
        ≡ (make_with parent name (next_alloc f.mem).0 >>= λ p.
              update p add_lookup >> (λ f'. ok p f'))
            ready
  unfolding find_node
  find_node-missing r = rw r refl

  find_node-made :
      ((p : ℕ) (n : Node) → get p f.nodes ≡ some n → is_named parent name n ≡ false)
      → lookup_node f parent name ≡ missing
      → f.ctr < 2 ^ 32
      → length f.nodes + 3 ≤ 2 ^ 32
      → FoundNode f parent name
  find_node-made z r c l =
      let w = find_node-missing r in
      let v = next_id-Fresh ready ready-IsWellFormed c l in
      let g = if ltb f.ctr v.id then f.generation else (f.generation + 1) % 2 ^ 32 in
      elim (Bool-cases (next_alloc f.mem).0) [
        | inr a ↦ failed ready z (inl a) (w ∙ rw a refl) ready-IsWellFormed refl
        | inl a ↦
            let w' = w ∙ rw a refl in
            elim (Bool-cases (next_alloc mem1).0) [
              | inl b ↦
                  made v.id g (joined v.id g parent name mem2 f) z v.unused (a, b)
                    (w' ∙ make_with-named v.id g v.unused v.runs (ap (λ x. (x, mem2)) b))
                    (joined-IsWellFormed v.id g parent name mem2 f d t v.unused e)
                    (rw (==_refl v.id) refl)
              | inr b ↦
                  failed (record f { ctr = v.id; generation = g; mem = mem2 }) z (inr b)
                    (w' ∙ make_with-copy_failed v.id g v.unused v.runs (ap (λ x. (x, mem2)) b))
                    (record { unique = t.unique; ids = t.ids; names = t.names; each = t.each }) refl
            ]
      ]

  -- In a well-formed tree with fewer than 2^32 - 2 nodes and a counter below 2^32, `find_node` for a
  -- name in a directory that is there always returns: the node of that name with one more lookup;
  -- or, where no node has the name and both allocations succeed, a new node with a number that no
  -- node has; or, where one of them fails, an error with the nodes as they were. The tree is well
  -- formed afterwards.
  pub find_node-FoundNode : f.ctr < 2 ^ 32 → length f.nodes + 3 ≤ 2 ^ 32 → FoundNode f parent name
  find_node-FoundNode c l = elim (lookup_node-LookedUpNode nothing nothing f parent name t) [
    | there p n r g i ↦ find_node-known p n r g i
    | nowhere r z ↦ find_node-made z r c l
  ]
