-- ===== src/Nodes/Unref.antt =====
-- `unref_node` and `delete_node` of fuse-2.8.5/lib/fuse.c keep the invariant.
use fuse_nt.Prelude.{
  ℕ, ◌+◌, ◌≤◌, ◌≡◌, refl, sym, ap, ◌∙◌, Bool, true, false, not, Option, none, some, List, [], ◌∷◌,
  ◌==◌, if◌then◌else◌, arith, Bool-cases, inl, inr,
}
use fuse_nt.Prelude.Memory.{Str}
use mathlib.Core.Option.{some-injective}
use mathlib.Core.Path.{subst}
use fuse_nt.Nodes.{Node, Fuse, get, modify, erase, is_null, drop_ref}
use fuse_nt.Nodes.Count.{
  Keeps, get-modify_cases, get-modify_other, count, at, has_id, count-modify, count-erase, count-at,
  get-modify, map_node,
}
use fuse_nt.Nodes.Invariant.{IsTree, IsNode, is_live, in_chain, child_of, placed}

-- one reference to `p` more
abbrev pub IsMore : ℕ → (ℕ → ℕ) → (ℕ → ℕ) → Type 0
IsMore p more less = (q : ℕ) → more q ≡ (if q == p then 1 else 0) + less q

pub IsMore-other :
    (p q : ℕ) (more less : ℕ → ℕ) → IsMore p more less → (q == p) ≡ false → more q ≡ less q
IsMore-other p q more less m h = let e = m q in ground arith

pub IsMore-same : (p : ℕ) (more less : ℕ → ℕ) → IsMore p more less → more p ≡ 1 + less p
IsMore-same p more less m = let e = m p in ground arith

-- a change of fields that no count reads
abbrev pub Ignores : (Node → Bool) → (Node → Node) → Type 0
Ignores q g = (n : Node) → q (g n) ≡ q n

pub count-modify_same :
    (q : Node → Bool) (p : ℕ) (g : Node → Node) (ns : List Node)
    → Ignores q g
    → count q (modify p g ns) ≡ count q ns
count-modify_same q p g [] i = refl
count-modify_same q p g (n ∷ ns) i =
    let ih = count-modify_same q p g ns i in
    let s = i n in
    elim (Bool-cases (n.nodeid == p)) [ inl e ↦ rw (e, s, ih) refl | inr e ↦ rw (e, ih) refl ]

-- a change that keeps whether there are names, for the liveness of pointers
pub is_live-modify :
    (p : ℕ) (g : Node → Node) (ns : List Node) → Keeps g → is_live (modify p g ns) ≡ is_live ns
is_live-modify p g ns k i q = live_at q i
  where
    is_null-map : (o : Option Node) → is_null (map_node g o) ≡ is_null o
    is_null-map none = refl
    is_null-map (some n) = refl

    live_at : (q : ℕ) → is_live (modify p g ns) q ≡ is_live ns q
    live_at q = elim (Bool-cases (q == p)) [
      | inl h ↦ ap not (
          ap is_null
            (get-modify p q g ns k ∙ ap (λ b. if b then map_node g (get q ns) else get q ns) h)
          ∙ is_null-map (get q ns))
      | inr h ↦ ap not (ap is_null (get-modify_other p q g ns k h))
    ]

pub IsNode-extra :
    (live : ℕ → Bool) (c e e' fo : ℕ) (n : Node)
    → e ≡ e'
    → IsNode live c e fo n
    → IsNode live c e' fo n
IsNode-extra live c e e' fo n q v = subst (λ x. IsNode live c x fo n) q v

IsNode-dropped :
    (live : ℕ → Bool) (c e fo : ℕ) (n : Node)
    → (n.refctr == 1) ≡ false
    → IsNode live c (1 + e) fo n
    → IsNode live c e fo (drop_ref n)
IsNode-dropped live c e fo n h v = record {
  placement = v.placement;
  refs = ground (arith, v.refs, v.referenced);
  referenced = ground (arith, v.referenced);
  known = v.known;
  unlocked = v.unlocked;
}

module _ (more less forgotten : ℕ → ℕ) (p : ℕ) (f : Fuse) where
  -- a node that still has other references
  pub dropped-IsTree :
      (n : Node)
      → IsMore p more less
      → get p f.nodes ≡ some n
      → (n.refctr == 1) ≡ false
      → IsTree more forgotten f
      → IsTree less forgotten (record f { nodes = modify p drop_ref f.nodes })
  dropped-IsTree n m e h t =
      let same =
        λ (q : Node → Bool) (i : Ignores q drop_ref). count-modify_same q p drop_ref f.nodes i in
      record {
        unique = λ q. rw (same (has_id q) (λ n. refl)) (t.unique q);
        ids = λ i q. rw (same (has_id q) (λ n. refl)) (t.ids i q);
        names = λ i q. rw (same (at q (in_chain f.name_table_size i)) (λ n. refl)) (t.names i q);
        each = λ q n' e'.
            rw (is_live-modify p drop_ref f.nodes (λ n. refl), same (child_of q) (λ n. refl))
              (elim (get-modify_cases p q drop_ref f.nodes n' (λ n. refl) e') [
                | inr (o, e'') ↦
                    IsNode-extra _ _ _ _ _ n' (IsMore-other p q more less m o) (t.each q n' e'')
                | inl (n'', s, e'', d) ↦
                    let n0 = some-injective _ _ (sym e ∙ e'') in
                    let v = IsNode-extra _ _ _ _ _ n (IsMore-same p more less m) (t.each p n e) in
                    rw (d, s, ← n0) (IsNode-dropped _ _ (less p) _ n h v)
              ]);
      }

pub count-get :
    (q : Node → Bool) (p : ℕ) (ns : List Node) (n : Node)
    → get p ns ≡ some n
    → q n ≡ true
    → 1 ≤ count q ns
count-get q p [] n e h = ground arith
count-get q p (m ∷ ns) n e h = let ih = count-get q p ns n in ground arith

pub count-erase_same :
    (q : Node → Bool) (p : ℕ) (ns : List Node) (n : Node)
    → count (has_id p) ns ≤ 1
    → get p ns ≡ some n
    → q n ≡ false
    → count q (erase p ns) ≡ count q ns
count-erase_same q p ns n u e h =
    let a = count-erase q p ns in let b = count-at q p ns n u e in ground arith

-- a node without name, lookups or children, whose last reference is given up
pub record IsLast (ns : List Node) (p : ℕ) (n : Node) : Type 0 where
  pub nameless : n.name ≡ none
  pub parentless : n.parent ≡ none
  pub childless : count (child_of p) ns ≡ 0

pub placed-nameless :
    (live : ℕ → Bool) (id : ℕ) (o : Option ℕ) (s : Option Str)
    → is_null s ≡ true
    → placed live id o s ≡ true
    → (s ≡ none) × (o ≡ none)
placed-nameless live id none none h e = (refl, refl)
placed-nameless live id (some p) none h e = absurd (ground arith)
placed-nameless live id o (some s) h e = absurd (ground arith)

pub IsNode-IsLast :
    (ns : List Node) (p less : ℕ) (n : Node)
    → (n.refctr == 1) ≡ true
    → IsNode (is_live ns) (count (child_of p) ns) (1 + less) 0 n
    → IsLast ns p n
IsNode-IsLast ns p less n h v =
    let r = v.refs in
    let k : n.nlookup ≡ 0 = ground arith in
    let z : is_null n.name ≡ true = elim (Bool-cases (is_null n.name)) [
      | inl e ↦ e
      | inr e ↦ let x = v.known e in absurd (omega arith)
    ] in
    let (a, b) = placed-nameless (is_live ns) n.nodeid n.parent n.name z v.placement in
    record { nameless = a; parentless = b; childless = ground arith }

-- the count after a change of the one node at the pointer
pub count_moved :
    (q : Node → Bool) (p : ℕ) (g : Node → Node) (ns : List Node) (n : Node)
    → count (has_id p) ns ≤ 1
    → get p ns ≡ some n
    → count q (modify p g ns) + (if q n then 1 else 0) ≡ count q ns + (if q (g n) then 1 else 0)
count_moved q p g ns n u e =
    let a = count-modify q p g ns in
    let b = count-at q p ns n u e in let c = count-at (λ m. q (g m)) p ns n u e in omega arith
