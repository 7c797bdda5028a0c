-- ===== src/Nodes/Cleared.antt =====
-- What `unhash_name` and `unlink_node` of fuse-2.8.5/lib/fuse.c leave of a node, and of the others.

use fuse_nt.Prelude.{
  ℕ, ◌+◌, ◌-◌, ◌≤◌, ◌≡◌, refl, sym, ap, ◌∙◌, true, false, none, some, ◌==◌, if◌then◌else◌, arith,
  Bool-cases, inl, inr,
}
use fuse_nt.Prelude.Run.{Run, ok}
use fuse_nt.Nodes.{Node, Fuse, get, is_null, unhash_name, clear_name}
use fuse_nt.Nodes.Count.{map_node, get-modify_same, get-modify_other, get-nodeid}
use fuse_nt.Nodes.Invariant.{IsWellFormed, nothing, is_live}
use fuse_nt.Nodes.Unref.{placed-nameless}
use fuse_nt.Nodes.Stays.{Stays, Stays-same}
use fuse_nt.Nodes.Unhash.{unhash_name-Unhashed}
use fuse_nt.Nodes.Forget.{less_known, with_lookups-IsTree, placed-named, is_live-some}
use fuse_nt.Nodes.Remove.{unlink_kept, unlink_plain}
use fuse_nt.Nodes.Ops.{drop_lookups, unlink_node}

-- a run after which the node has no name
pub record Cleared (f : Fuse) (p : ℕ) (r : Run Fuse Unit) : Type 0 where
  pub after : Fuse
  pub runs : r ≡ ok tt after
  pub tree : IsWellFormed after
  pub node : Node
  pub there : get p after.nodes ≡ some node
  pub nameless : node.name ≡ none
  pub parentless : node.parent ≡ none
  pub looked_up : 1 ≤ node.nlookup
  pub same_mem : after.mem ≡ f.mem
  pub others :
      (q : ℕ) (d : Node)
      → (q == p) ≡ false
      → get q f.nodes ≡ some d
      → 1 ≤ d.nlookup
      → Stays after.nodes q d

unhash_nameless :
    (p : ℕ) (f : Fuse) (n : Node)
    → get p f.nodes ≡ some n
    → is_null n.name ≡ true
    → 1 ≤ n.nlookup
    → IsWellFormed f
    → Cleared f p (unhash_name p f)
unfolding unhash_name
unhash_nameless p f n e z l t =
    let (a, b) =
      placed-nameless (is_live f.nodes) n.nodeid n.parent n.name z (t.each p n e).placement in
    record {
      after = f;
      runs = rw (e, a) refl;
      tree = t;
      node = n;
      there = e;
      nameless = a;
      parentless = b;
      looked_up = l;
      same_mem = refl;
      others = λ q d o g k. Stays-same f.nodes q d g;
    }

pub unhash_name-Cleared :
    (p : ℕ) (f : Fuse) (n : Node)
    → get p f.nodes ≡ some n
    → (is_null n.name ≡ false → is_null n.parent ≡ false)
    → 1 ≤ n.nlookup
    → IsWellFormed f
    → Cleared f p (unhash_name p f)
unhash_name-Cleared p f n e i l t = elim (Bool-cases (is_null n.name)) [
  | inl z ↦ unhash_nameless p f n e z l t
  | inr z ↦
      let (q, s, a, b, o, v) =
        placed-named (is_live f.nodes) n.nodeid n.parent n.name (i z) z (t.each p n e).placement in
      let (m, e') = is_live-some f.nodes q v in
      let o' : (q == p) ≡ false = ap (λ r. q == r) (sym (get-nodeid p f.nodes n e)) ∙ o in
      let h =
        unhash_name-Unhashed (λ r. (if r == q then 1 else 0) + nothing r) nothing nothing p q s f n
          m (λ r. refl) refl e a b o' e' t in
      record {
        after = h.after;
        runs = h.runs;
        tree = h.tree;
        node = clear_name n;
        there = h.stays;
        nameless = refl;
        parentless = refl;
        looked_up = l;
        same_mem = h.same_mem;
        others = h.others;
      }
]

pub unlink_node-Cleared :
    (p : ℕ) (f : Fuse) (n : Node)
    → get p f.nodes ≡ some n
    → (is_null n.name ≡ false → is_null n.parent ≡ false)
    → 1 ≤ n.nlookup
    → (f.noforget ≡ true → 2 ≤ n.nlookup)
    → IsWellFormed f
    → Cleared f p (unlink_node p f)
unlink_node-Cleared p f n e i l k t = elim (Bool-cases f.noforget) [
  | inr h ↦
      let c = unhash_name-Cleared p f n e i l t in
      record {
        after = c.after;
        runs = unlink_plain p f h ∙ c.runs;
        tree = c.tree;
        node = c.node;
        there = c.there;
        nameless = c.nameless;
        parentless = c.parentless;
        looked_up = c.looked_up;
        same_mem = c.same_mem;
        others = c.others;
      }
  | inl h ↦
      let w = k h in
      let e1 =
        get-modify_same p (drop_lookups 1) f.nodes (λ n. refl) ∙ ap (map_node (drop_lookups 1)) e in
      let t1 =
        with_lookups-IsTree p (λ x. x - 1) f n nothing (λ q o. refl) (ground arith)
          (λ i. omega arith) e t in
      let c = unhash_name-Cleared p (less_known p 1 f) (drop_lookups 1 n) e1 i (omega arith) t1 in
      record {
        after = c.after;
        runs = unlink_kept p f n e w h ∙ c.runs;
        tree = c.tree;
        node = c.node;
        there = c.there;
        nameless = c.nameless;
        parentless = c.parentless;
        looked_up = c.looked_up;
        same_mem = c.same_mem;
        others = λ q d o g k.
            c.others q d o (get-modify_other p q (drop_lookups 1) f.nodes (λ n. refl) o ∙ g) k;
      }
]
