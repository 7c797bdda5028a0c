-- ===== src/Nodes/NextId.antt =====
-- The numbers of new nodes: `next_id` of fuse-2.8.5/lib/fuse.c finds a free one.
use fuse_nt.Prelude.{
  ℕ, zero, suc, ◌+◌, ◌-◌, ◌≤◌, ◌<◌, ◌%◌, ◌^◌, ◌≡◌, refl, sym, ap, ◌∙◌, false, ◌||◌, none, List, [],
  ◌∷◌, ltb, ◌==◌, if◌then◌else◌, length, arith, Bool-cases, Option-cases, inl, inr, ==_iff,
}
use mathlib.Core.Path.{subst}
use fuse_nt.Prelude.Run.{Run, ok}
use fuse_nt.Nodes.{Node, Fuse, get, remove_first}
use fuse_nt.Nodes.Count.{count, has_id, get-none, get-some, occurs, occurs-remove_first}
use fuse_nt.Nodes.Invariant.{IsWellFormed, nothing}
use fuse_nt.Nodes.Lookup.{get_node_nocheck-found, get_node_nocheck-missing}
use fuse_nt.Nodes.Ops.{next_id, step_ctr, id_rounds, unknown_id}

-- the numbers that `next_id` passes over
abbrev id_list : List Node → List ℕ
id_list [] = []
id_list (n ∷ ns) = n.nodeid ∷ id_list ns

abbrev taken : List Node → List ℕ
taken ns = 0 ∷ unknown_id ∷ id_list ns

occurs-id_list : (p : ℕ) (ns : List Node) → occurs p (id_list ns) ≡ count (has_id p) ns
occurs-id_list p [] = refl
occurs-id_list p (n ∷ ns) = let ih = occurs-id_list p ns in ground arith

length-id_list : (ns : List Node) → length (id_list ns) ≡ length ns
length-id_list [] = refl
length-id_list (n ∷ ns) = ap suc (length-id_list ns)

length-remove_first :
    (p : ℕ) (ps : List ℕ) → 1 ≤ occurs p ps → suc (length (remove_first p ps)) ≡ length ps
length-remove_first p [] h = absurd (omega arith)
length-remove_first p (q ∷ qs) h = let ih = length-remove_first p qs in ground arith

-- the counter after `i` rounds
abbrev nth_ctr : ℕ → ℕ → ℕ
nth_ctr c i = if ltb (c + i) (2 ^ 32) then c + i else c + i - 2 ^ 32

abbrev nth_generation : ℕ → ℕ → ℕ → ℕ
nth_generation g c i = if ltb (c + i) (2 ^ 32) then g else (g + 1) % 2 ^ 32

abbrev at_round : Fuse → ℕ → Fuse
at_round f i = record f { ctr = nth_ctr f.ctr i; generation = nth_generation f.generation f.ctr i }

nth_ctr-injective :
    (c i j : ℕ) → c < 2 ^ 32 → 1 ≤ i → i < j → j ≤ 2 ^ 32 → (nth_ctr c i == nth_ctr c j) ≡ false
nth_ctr-injective c i j h a b d = ground arith

nth_ctr-suc : (c i : ℕ) → c < 2 ^ 32 → i < 2 ^ 32 → (nth_ctr c i + 1) % 2 ^ 32 ≡ nth_ctr c (suc i)
nth_ctr-suc c i h l = ground arith

nth_generation-suc :
    (g c i : ℕ)
    → c < 2 ^ 32
    → i < 2 ^ 32
    → (if nth_ctr c (suc i) == 0 then (nth_generation g c i + 1) % 2 ^ 32 else nth_generation g c i)
      ≡ nth_generation g c (suc i)
nth_generation-suc g c i h l = ground arith

-- Different numbers that are all in a list are no more than the list has.
crowded :
    (c k : ℕ) (ps : List ℕ)
    → c < 2 ^ 32
    → k ≤ 2 ^ 32
    → ((j : ℕ) → 1 ≤ j → j ≤ k → 1 ≤ occurs (nth_ctr c j) ps)
    → k ≤ length ps
crowded c zero ps h l a = omega arith
crowded c (suc k) ps h l a =
    let x = nth_ctr c (suc k) in
    let r = length-remove_first x ps (a (suc k) (omega arith) (omega arith)) in
    let ih = crowded c k (remove_first x ps) h (omega arith) (λ j u v.
      let w = nth_ctr-injective c j (suc k) h u (omega arith) l in
      let o = a j u (omega arith) in
      let e = occurs-remove_first x (nth_ctr c j) ps in ground (arith, w, o, e)) in
    omega arith

step_ctr-round :
    (f : Fuse) (i : ℕ) → f.ctr < 2 ^ 32 → i < 2 ^ 32 → step_ctr (at_round f i) ≡ at_round f (suc i)
step_ctr-round f i h l =
    let a = nth_ctr-suc f.ctr i h l in
    let b = nth_generation-suc f.generation f.ctr i h l in
    ap
      (λ x. record f {
        ctr = x;
        generation =
            if x == 0
            then (nth_generation f.generation f.ctr i + 1) % 2 ^ 32
            else nth_generation f.generation f.ctr i;
      })
      a
    ∙ ap (λ y. record f { ctr = nth_ctr f.ctr (suc i); generation = y }) b

at_round-zero : (f : Fuse) → f.ctr < 2 ^ 32 → at_round f 0 ≡ f
at_round-zero f h =
    let a : nth_ctr f.ctr 0 ≡ f.ctr = ground arith in
    let b : nth_generation f.generation f.ctr 0 ≡ f.generation = ground arith in
    ap (λ x. record f { ctr = x; generation = nth_generation f.generation f.ctr 0 }) a
    ∙ ap (λ y. record f { generation = y }) b

module _ (f : Fuse) (t : IsWellFormed f) where
  -- no operation of the tree reads the counter
  step_ctr-IsTree : IsWellFormed (step_ctr f)
  step_ctr-IsTree = record { unique = t.unique; ids = t.ids; names = t.names; each = t.each }

  next_id-taken :
      (fuel : ℕ)
      → 1 ≤ occurs (step_ctr f).ctr (taken f.nodes)
      → next_id (suc fuel) f ≡ next_id fuel (step_ctr f)
  unfolding next_id
  next_id-taken fuel o =
      let x = (step_ctr f).ctr in
      elim (Bool-cases (x == 0 || x == unknown_id)) [
        | inl h ↦ rw h refl
        | inr h ↦
            let i = occurs-id_list x f.nodes in
            elim (Option-cases (get x f.nodes)) [
              | inl e ↦ let z = get-none x f.nodes e in absurd (ground arith)
              | inr (n, e) ↦
                  rw (h, get_node_nocheck-found nothing nothing (step_ctr f) x n step_ctr-IsTree e)
                    refl
            ]
      ]

  next_id-free :
      (fuel : ℕ)
      → occurs (step_ctr f).ctr (taken f.nodes) ≡ 0
      → (get (step_ctr f).ctr f.nodes ≡ none)
        × (next_id (suc fuel) f ≡ ok (step_ctr f).ctr (step_ctr f))
  unfolding next_id
  next_id-free fuel o =
      let x = (step_ctr f).ctr in
      let i = occurs-id_list x f.nodes in
      elim (Option-cases (get x f.nodes)) [
        | inr (n, e) ↦ let z = get-some x f.nodes n e in absurd (ground arith)
        | inl e ↦
            let h : (x == 0 || x == unknown_id) ≡ false = ground arith in
            (
              e,
              rw (h, get_node_nocheck-missing nothing nothing (step_ctr f) x step_ctr-IsTree e)
                  refl,
            )
      ]

-- the node number that a search ends with
pub record Fresh (f : Fuse) (r : Run Fuse ℕ) : Type 0 where
  pub id : ℕ
  pub runs :
      r
      ≡ ok id (record f {
        ctr = id;
        generation = if ltb f.ctr id then f.generation else (f.generation + 1) % 2 ^ 32;
      })
  pub unused : get id f.nodes ≡ none
  pub nonzero : (id == 0) ≡ false
  pub is_known : (id == unknown_id) ≡ false
  pub fits : id < 2 ^ 32

round-IsTree : (f : Fuse) (i : ℕ) → IsWellFormed f → IsWellFormed (at_round f i)
round-IsTree f i t = record { unique = t.unique; ids = t.ids; names = t.names; each = t.each }

round_order :
    (f : Fuse) (i : ℕ)
    → f.ctr < 2 ^ 32
    → i < 2 ^ 32
    → nth_generation f.generation f.ctr (suc i)
      ≡ (if ltb f.ctr (nth_ctr f.ctr (suc i)) then f.generation else (f.generation + 1) % 2 ^ 32)
round_order f i h l = ground arith

-- the rounds from the `i`th one on
next_id-rounds :
    (f : Fuse) (fuel i : ℕ)
    → IsWellFormed f
    → f.ctr < 2 ^ 32
    → i + fuel ≤ 2 ^ 32
    → length (taken f.nodes) < i + fuel
    → ((j : ℕ) → 1 ≤ j → j ≤ i → 1 ≤ occurs (nth_ctr f.ctr j) (taken f.nodes))
    → Fresh f (next_id fuel (at_round f i))
next_id-rounds f zero i t h l m a =
    let c = crowded f.ctr i (taken f.nodes) h (omega arith) a in absurd (omega arith)
next_id-rounds f (suc fuel) i t h l m a =
    let x = nth_ctr f.ctr (suc i) in
    let s = step_ctr-round f i h (omega arith) in
    let c = ap (λ (g : Fuse). occurs g.ctr (taken f.nodes)) s in
    elim (Bool-cases (occurs x (taken f.nodes) == 0)) [
      | inl z ↦
          let (e, r) =
            next_id-free (at_round f i) (round-IsTree f i t) fuel (c ∙ (==_iff _ 0).0 z) in
          record {
            id = x;
            runs =
                r
                ∙ ap (λ (g : Fuse). ok g.ctr g) s
                ∙ ap (λ y. ok x (record f { ctr = x; generation = y }))
                    (round_order f i h (omega arith));
            unused = ap (λ (g : Fuse). get g.ctr f.nodes) (sym s) ∙ e;
            nonzero = ground (arith, z);
            is_known = ground (arith, z);
            fits = ground (arith, h, l);
          }
      | inr z ↦
          let o : 1 ≤ occurs x (taken f.nodes) = ground (arith, z) in
          let r =
            next_id-taken (at_round f i) (round-IsTree f i t) fuel (ground (arith, c, o))
            ∙ ap (next_id fuel) s in
          let all : (j : ℕ) → 1 ≤ j → j ≤ suc i → 1 ≤ occurs (nth_ctr f.ctr j) (taken f.nodes) =
            λ j u v. elim (Bool-cases (j == suc i)) [
              | inl k ↦
                  subst (λ r. 1 ≤ occurs (nth_ctr f.ctr r) (taken f.nodes))
                    (sym ((==_iff j (suc i)).0 k)) o
              | inr k ↦ a j u (ground (arith, k, v))
            ] in
          subst (Fresh f) (sym r)
            (next_id-rounds f fuel (suc i) t h (omega arith) (omega arith) all)
    ]

-- In a well-formed tree with fewer than 2^32 - 2 nodes and a counter below 2^32, the search for a
-- number ends within `id_rounds` rounds with a number below 2^32 that no node has and that is
-- neither 0 nor the unknown number. The generation is the next one just when the number is not
-- above the counter, and nothing else changes.
pub next_id-Fresh :
    (f : Fuse)
    → IsWellFormed f
    → f.ctr < 2 ^ 32
    → length f.nodes + 3 ≤ 2 ^ 32
    → Fresh f (next_id (id_rounds f) f)
next_id-Fresh f t h l =
    let n = length-id_list f.nodes in
    subst (λ g. Fresh f (next_id (id_rounds f) g)) (at_round-zero f h)
      (next_id-rounds f (id_rounds f) 0 t h (omega arith) (omega arith)
        (λ j u v. absurd (omega arith)))
