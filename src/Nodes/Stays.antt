-- ===== src/Nodes/Stays.antt =====
-- A node that stays while another of fuse-2.8.5/lib/fuse.c changes.
use fuse_nt.Prelude.{ℕ, ◌≡◌, refl, ap, ◌∙◌, some, List, ◌==◌, if◌then◌else◌, Bool-cases, inl, inr}
use fuse_nt.Nodes.{Node, get, modify, drop_ref}
use fuse_nt.Nodes.Count.{get-modify, get-modify_other, map_node}

-- the node at the pointer, with another reference count at most
pub record Stays (ns : List Node) (r : ℕ) (d : Node) : Type 0 where
  pub node : Node
  pub there : get r ns ≡ some node
  pub same_name : node.name ≡ d.name
  pub same_parent : node.parent ≡ d.parent
  pub same_nlookup : node.nlookup ≡ d.nlookup

pub Stays-same : (ns : List Node) (r : ℕ) (d : Node) → get r ns ≡ some d → Stays ns r d
Stays-same ns r d e = record {
  node = d;
  there = e;
  same_name = refl;
  same_parent = refl;
  same_nlookup = refl;
}

-- A change of one node leaves the others, and one that changes only the reference count all.
pub Stays-drop :
    (ns : List Node) (r q : ℕ) (d : Node) → get r ns ≡ some d → Stays (modify q drop_ref ns) r d
Stays-drop ns r q d e = elim (Bool-cases (r == q)) [
  | inr h ↦
      Stays-same (modify q drop_ref ns) r d (get-modify_other q r drop_ref ns (λ n. refl) h ∙ e)
  | inl h ↦ record {
    node = drop_ref d;
    there =
        get-modify q r drop_ref ns (λ n. refl)
        ∙ ap (λ b. if b then map_node drop_ref (get r ns) else get r ns) h
        ∙ ap (map_node drop_ref) e;
    same_name = refl;
    same_parent = refl;
    same_nlookup = refl;
  }
]
