-- ===== src/Nodes/Rehash.antt =====
-- The end of `rename_node` of fuse-2.8.5/lib/fuse.c: the node loses its name and gets the new one.

use fuse_nt.Prelude.{
  ℕ, ◌≤◌, ◌≡◌, refl, sym, ap, ◌∙◌, Bool, true, false, some, none, ◌==◌, Bool-cases, inl, inr,
}
use fuse_nt.Prelude.Memory.{Str, Mem, next_alloc}
use fuse_nt.Prelude.Run.{Run, ok}
use fuse_nt.Nodes.{Node, Fuse, get, modify, is_null}
use fuse_nt.Nodes.Count.{map_node, get-modify_same, get-modify_cases, has_id, at}
use fuse_nt.Nodes.Invariant.{IsWellFormed, in_chain, child_of}
use fuse_nt.Nodes.Unref.{count-modify_same, is_live-modify}
use fuse_nt.Nodes.Cleared.{unhash_name-Cleared}
use fuse_nt.Nodes.Renamed.{
  renamed_to, renamed-IsWellFormed, renamed-get, hash_name-renamed, hash_name-not_copied,
}
use fuse_nt.Nodes.Ops.{name_under, rehash, end_rename, Renamed, renamed, enomem}

-- `node->is_hidden = 1`
abbrev hidden : Node → Node
hidden n = record n { is_hidden = true }

hidden-IsWellFormed :
    (p : ℕ) (f : Fuse)
    → IsWellFormed f
    → IsWellFormed (record f { nodes = modify p hidden f.nodes })
hidden-IsWellFormed p f t = record {
  unique = λ q. rw (count-modify_same (has_id q) p hidden f.nodes (λ n. refl)) (t.unique q);
  ids = λ i q. rw (count-modify_same (has_id q) p hidden f.nodes (λ n. refl)) (t.ids i q);
  names = λ i q.
      rw (count-modify_same (at q (in_chain f.name_table_size i)) p hidden f.nodes (λ n. refl))
        (t.names i q);
  each = λ q n e.
      rw
        (
          is_live-modify p hidden f.nodes (λ n. refl),
          count-modify_same (child_of q) p hidden f.nodes (λ n. refl),
        )
        (elim (get-modify_cases p q hidden f.nodes n (λ n. refl) e) [
          | inr (o, e') ↦ t.each q n e'
          | inl (m, s, e', d) ↦
              let v = t.each p m e' in
              rw (d, s)
                (record {
                  placement = v.placement;
                  refs = v.refs;
                  referenced = v.referenced;
                  known = v.known;
                  unlocked = v.unlocked;
                })
        ]);
}

-- the end of a renaming of the node `p`, where `mem` says whether the name can be copied
pub data Rehashed (p newdir : ℕ) (newname : Str) (mem : Mem) (r : Run Fuse Renamed) : Type 0 where
  done :
      (f' : Fuse) (n : Node)
      → (next_alloc mem).0 ≡ true
      → r ≡ ok renamed f'
      → IsWellFormed f'
      → get p f'.nodes ≡ some n
      → n.name ≡ some newname
      → n.parent ≡ some newdir
      → Rehashed p newdir newname mem r
  lost :
      (f' : Fuse) (n : Node)
      → (next_alloc mem).0 ≡ false
      → r ≡ ok enomem f'
      → IsWellFormed f'
      → get p f'.nodes ≡ some n
      → n.name ≡ none
      → Rehashed p newdir newname mem r

hide_it-done :
    (p newdir : ℕ) (newname : Str) (hide : Bool) (mem : Mem) (f : Fuse) (n : Node)
    → (next_alloc mem).0 ≡ true
    → IsWellFormed f
    → get p f.nodes ≡ some n
    → n.name ≡ some newname
    → n.parent ≡ some newdir
    → Rehashed p newdir newname mem (end_rename p hide (ok tt f))
hide_it-done p newdir newname false mem f n m t e a b = done f n m refl t e a b
hide_it-done p newdir newname true mem f n m t e a b =
    done (record f { nodes = modify p hidden f.nodes }) (hidden n) m refl
      (hidden-IsWellFormed p f t)
      (get-modify_same p hidden f.nodes (λ n. refl) ∙ ap (map_node hidden) e) a b

pub rehash-Rehashed :
    (p newdir : ℕ) (newname : Str) (hide : Bool) (f : Fuse) (n d : Node)
    → get p f.nodes ≡ some n
    → (is_null n.name ≡ false → is_null n.parent ≡ false)
    → 1 ≤ n.nlookup
    → get newdir f.nodes ≡ some d
    → 1 ≤ d.nlookup
    → (newdir == p) ≡ false
    → IsWellFormed f
    → Rehashed p newdir newname f.mem (rehash p newdir newname hide f)
rehash-Rehashed p newdir newname hide f n d e i l g k o t =
    let c = unhash_name-Cleared p f n e i l t in
    let s = c.others newdir d o g k in
    let mem = (next_alloc c.after.mem).1 in
    elim (Bool-cases (next_alloc c.after.mem).0) [
      | inl a ↦
          let h =
            hash_name-renamed p newdir newname mem c.after c.node s.node c.tree c.there c.nameless
              c.parentless c.looked_up s.there o (ap (λ b. (b, mem)) a) in
          rw (c.runs, h)
            (hide_it-done p newdir newname hide f.mem (renamed_to p newdir newname mem c.after)
              (name_under newdir newname c.node) (sym (ap (λ m. (next_alloc m).0) c.same_mem) ∙ a)
              (renamed-IsWellFormed p newdir newname mem c.after c.node s.node c.tree c.there
                c.nameless c.parentless c.looked_up s.there o)
              (renamed-get p newdir newname mem c.after c.node s.node c.tree c.there c.nameless
                c.parentless c.looked_up s.there o)
              refl refl)
      | inr a ↦
          let h =
            hash_name-not_copied p newdir newname mem c.after c.node s.node c.tree c.there
              c.nameless c.parentless c.looked_up s.there o (ap (λ b. (b, mem)) a) in
          rw (c.runs, h)
            (lost (record c.after { mem = mem }) c.node
              (sym (ap (λ m. (next_alloc m).0) c.same_mem) ∙ a) refl
              (record {
                unique = c.tree.unique;
                ids = c.tree.ids;
                names = c.tree.names;
                each = c.tree.each;
              })
              c.there c.nameless)
    ]
