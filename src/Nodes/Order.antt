-- ===== src/Nodes/Order.antt =====
-- Changes of different nodes in `unhash_name` of fuse-2.8.5/lib/fuse.c, in either order.

use fuse_nt.Prelude.{
  ℕ, ◌%◌, ◌≡◌, refl, ap, ◌∙◌, false, List, [], ◌∷◌, ◌==◌, Bool-cases, Option-cases, inl, inr,
}
use fuse_nt.Prelude.Int.{pos, ◌==ℤ◌}
use fuse_nt.Prelude.Run.{ok, ◌>>◌}
use fuse_nt.Nodes.{
  Node, Fuse, get, modify, erase, remove_first, at_index, is_null, drop_ref, update, unref_node,
  delete_node, unhash_id, clear_name,
}
use fuse_nt.Nodes.Count.{Keeps, get-modify_same, get-modify_other}

-- changes of different fields
clear-drop :
    (p q : ℕ) (ns : List Node)
    → modify p clear_name (modify q drop_ref ns) ≡ modify q drop_ref (modify p clear_name ns)
clear-drop p q [] = refl
clear-drop p q (n ∷ ns) =
    let ih = clear-drop p q ns in
    elim (Bool-cases (n.nodeid == p)) [
      | inl a ↦ elim (Bool-cases (n.nodeid == q)) [
        | inl b ↦ rw (a, b, a, ih) refl
        | inr b ↦ rw (a, b, a, ih) refl
      ]
      | inr a ↦ elim (Bool-cases (n.nodeid == q)) [
        | inl b ↦ rw (a, b, a, ih) refl
        | inr b ↦ rw (a, b, a, ih) refl
      ]
    ]

modify-erase :
    (p q : ℕ) (g : Node → Node) (ns : List Node)
    → Keeps g
    → modify p g (erase q ns) ≡ erase q (modify p g ns)
modify-erase p q g [] k = refl
modify-erase p q g (n ∷ ns) k =
    let ih = modify-erase p q g ns k in
    elim (Bool-cases (n.nodeid == q)) [
      | inl b ↦ elim (Bool-cases (n.nodeid == p)) [
        | inl a ↦ rw (b, a, k n, b) ih
        | inr a ↦ rw (b, a, b) ih
      ]
      | inr b ↦ elim (Bool-cases (n.nodeid == p)) [
        | inl a ↦ rw (b, a, k n, b, ih) refl
        | inr a ↦ rw (b, a, b, ih) refl
      ]
    ]

-- It makes no difference whether another node loses its name before or after.
pub unref_node-clear :
    (p q : ℕ) (f : Fuse)
    → (q == p) ≡ false
    → (unref_node q >> update p clear_name) f
      ≡ unref_node q (record f { nodes = modify p clear_name f.nodes })
unfolding unref_node delete_node unhash_id
unref_node-clear p q f h =
    let s = get-modify_other p q clear_name f.nodes (λ n. refl) h in
    elim (Option-cases (get q f.nodes)) [
      | inl e ↦ rw (e, s, e) refl
      | inr (m, e) ↦ elim (Bool-cases (m.refctr == 0)) [
        | inl z ↦ rw (e, z, s, e, z) refl
        | inr z ↦ elim (Bool-cases (m.refctr == 1)) [
          | inr w ↦ rw (e, z, w, s, e, z, w, clear-drop p q f.nodes) refl
          | inl w ↦
              let a = get-modify_same q drop_ref f.nodes (λ n. refl) in
              let b = get-modify_same q drop_ref (modify p clear_name f.nodes) (λ n. refl) in
              elim (Bool-cases (m.treelock ==ℤ pos 0)) [
                | inr l ↦ rw (e, z, w, a, e, l, s, e, z, w, b, s, e, l) refl
                | inl l ↦ elim (Bool-cases (is_null m.name)) [
                  | inr k ↦ rw (e, z, w, a, e, l, k, s, e, z, w, b, s, e, l, k) refl
                  | inl k ↦
                      rw (e, z, w, a, e, l, k, s, e, z, w, b, s, e, l, k)
                        (ap
                          (λ ns. ok tt (record f {
                            nodes = ns;
                            id_table = at_index (q % f.id_table_size) (remove_first q) f.id_table;
                          }))
                          (modify-erase p q clear_name (modify q drop_ref f.nodes) (λ n. refl)
                            ∙ ap (erase q) (clear-drop p q f.nodes)))
                ]
              ]
        ]
      ]
    ]
