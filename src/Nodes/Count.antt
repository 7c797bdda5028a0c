-- ===== src/Nodes/Count.antt =====
-- Counting nodes and pointers: what `get`, `modify`, `erase` and `remove_first` do to a count.
use fuse_nt.Prelude.{
  ℕ, ◌+◌, ◌-◌, ◌≤◌, ◌≡◌, ◌⊎◌, refl, sym, ap, ◌∙◌, Bool, true, false, ◌&&◌, Option, none, some, List,
  [], ◌∷◌, ◌==◌, if◌then◌else◌, arith, Bool-cases, inl, inr, ==_refl, ==_iff,
}
pub use fuse_nt.Prelude.{count}
use mathlib.Core.Option.{some-injective}
use fuse_nt.Nodes.{Node, get, modify, erase, remove_first, contains}

abbrev pub has_id : ℕ → Node → Bool
has_id p n = n.nodeid == p

-- the nodes at a pointer that pass a test
abbrev pub at : ℕ → (Node → Bool) → Node → Bool
at p q n = q n && has_id p n

abbrev pub Keeps : (Node → Node) → Type 0
Keeps g = (n : Node) → (g n).nodeid ≡ n.nodeid

pub count-modify :
    (q : Node → Bool) (p : ℕ) (g : Node → Node) (ns : List Node)
    → count q (modify p g ns) + count (at p q) ns ≡ count q ns + count (at p (λ n. q (g n))) ns
count-modify q p g [] = refl
count-modify q p g (n ∷ ns) =
    let ih = count-modify q p g ns in
    elim (Bool-cases (n.nodeid == p)) [ inl e ↦ ground arith | inr e ↦ ground arith ]

pub count-erase :
    (q : Node → Bool) (p : ℕ) (ns : List Node)
    → count q (erase p ns) + count (at p q) ns ≡ count q ns
count-erase q p [] = refl
count-erase q p (n ∷ ns) = let ih = count-erase q p ns in ground arith

pub get-nodeid : (p : ℕ) (ns : List Node) (n : Node) → get p ns ≡ some n → n.nodeid ≡ p
get-nodeid p [] n e = ground arith
get-nodeid p (m ∷ ns) n e = let ih = get-nodeid p ns n in ground arith

pub get-none : (p : ℕ) (ns : List Node) → get p ns ≡ none → count (has_id p) ns ≡ 0
get-none p [] e = refl
get-none p (n ∷ ns) e = let ih = get-none p ns in ground arith

pub get-some : (p : ℕ) (ns : List Node) (n : Node) → get p ns ≡ some n → 1 ≤ count (has_id p) ns
get-some p [] n e = ground arith
get-some p (m ∷ ns) n e = let ih = get-some p ns n in ground arith

count-at-zero :
    (q : Node → Bool) (p : ℕ) (ns : List Node) → count (has_id p) ns ≡ 0 → count (at p q) ns ≡ 0
count-at-zero q p [] h = refl
count-at-zero q p (n ∷ ns) h = let ih = count-at-zero q p ns in ground arith

-- at most one node has the id, so its count is decided by that node
pub count-at :
    (q : Node → Bool) (p : ℕ) (ns : List Node) (n : Node)
    → count (has_id p) ns ≤ 1
    → get p ns ≡ some n
    → count (at p q) ns ≡ (if q n then 1 else 0)
count-at q p [] n h e = ground arith
count-at q p (m ∷ ns) n h e =
    let ih = count-at q p ns n in let z = count-at-zero q p ns in ground arith

abbrev pub map_node : (Node → Node) → Option Node → Option Node
map_node g none = none
map_node g (some n) = some (g n)

pub get-modify :
    (p q : ℕ) (g : Node → Node) (ns : List Node)
    → Keeps g
    → get q (modify p g ns) ≡ (if q == p then map_node g (get q ns) else get q ns)
get-modify p q g [] k = elim (Bool-cases (q == p)) [ inl e ↦ rw e refl | inr e ↦ rw e refl ]
get-modify p q g (n ∷ ns) k =
    let ih = get-modify p q g ns k in
    let s = k n in
    elim (Bool-cases (n.nodeid == p)) [
      | inl e ↦ elim (Bool-cases (n.nodeid == q)) [
        | inl e' ↦ let e'' : (q == p) ≡ true = ground arith in rw (e, e', e'', s, e') refl
        | inr e' ↦
            let e'' : (q == p) ≡ false = ground arith in rw (e, e', e'', s, e') (ih ∙ rw e'' refl)
      ]
      | inr e ↦ elim (Bool-cases (n.nodeid == q)) [
        | inl e' ↦ let e'' : (q == p) ≡ false = ground arith in rw (e, e', e'') refl
        | inr e' ↦ rw (e, e') ih
      ]
    ]

pub get-erase :
    (p q : ℕ) (ns : List Node) → get q (erase p ns) ≡ (if q == p then none else get q ns)
get-erase p q [] = ground arith
get-erase p q (n ∷ ns) = let ih = get-erase p q ns in ground arith

pub erase-modify :
    (p : ℕ) (g : Node → Node) (ns : List Node) → Keeps g → erase p (modify p g ns) ≡ erase p ns
erase-modify p g [] k = refl
erase-modify p g (n ∷ ns) k =
    let s = k n in
    elim (Bool-cases (n.nodeid == p)) [
      | inl e ↦ rw (e, s, e) (erase-modify p g ns k)
      | inr e ↦ rw (e, e, erase-modify p g ns k) refl
    ]

pub get-modify_same :
    (p : ℕ) (g : Node → Node) (ns : List Node)
    → Keeps g
    → get p (modify p g ns) ≡ map_node g (get p ns)
get-modify_same p g ns k =
    get-modify p p g ns k ∙ ap (λ b. if b then map_node g (get p ns) else get p ns) (==_refl p)

pub get-modify_other :
    (p q : ℕ) (g : Node → Node) (ns : List Node)
    → Keeps g
    → (q == p) ≡ false
    → get q (modify p g ns) ≡ get q ns
get-modify_other p q g ns k h =
    get-modify p q g ns k ∙ ap (λ b. if b then map_node g (get q ns) else get q ns) h

map_node-some :
    (g : Node → Node) (o : Option Node) (n' : Node)
    → map_node g o ≡ some n'
    → (n : Node) × (o ≡ some n) × (n' ≡ g n)
map_node-some g none n' e = absurd (ground arith)
map_node-some g (some n) n' e = (n, refl, sym (some-injective _ _ e))

-- a node of the changed list is a changed node or one of the others
pub get-modify_cases :
    (p q : ℕ) (g : Node → Node) (ns : List Node) (n' : Node)
    → Keeps g
    → get q (modify p g ns) ≡ some n'
    → ((n : Node) × (q ≡ p) × (get p ns ≡ some n) × (n' ≡ g n))
      ⊎ (((q == p) ≡ false) × (get q ns ≡ some n'))
get-modify_cases p q g ns n' k e = elim (Bool-cases (q == p)) [
  | inr h ↦ inr (h, sym (get-modify_other p q g ns k h) ∙ e)
  | inl h ↦
      let h' = (==_iff q p).0 h in
      let e' = sym (ap (λ r. get r (modify p g ns)) h') ∙ e in
      let (n, a, b) = map_node-some g (get p ns) n' (sym (get-modify_same p g ns k) ∙ e') in
      inl (n, h', a, b)
]

abbrev pub occurs : ℕ → List ℕ → ℕ
occurs p ps = count (λ q. q == p) ps

pub occurs-remove_first :
    (p q : ℕ) (ps : List ℕ)
    → occurs q (remove_first p ps) ≡ (if q == p then occurs q ps - 1 else occurs q ps)
occurs-remove_first p q [] = ground arith
occurs-remove_first p q (r ∷ ps) = let ih = occurs-remove_first p q ps in ground arith

pub contains-occurs : (p : ℕ) (ps : List ℕ) → 1 ≤ occurs p ps → contains p ps ≡ true
contains-occurs p [] h = ground arith
contains-occurs p (r ∷ ps) h = let ih = contains-occurs p ps in ground arith
