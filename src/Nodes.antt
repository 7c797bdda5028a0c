-- ===== src/Nodes.antt =====
-- The nodes of the library and their hash tables: `struct node`, the tables of `struct fuse` and
-- `get_node_nocheck` to `find_node` of fuse-2.8.5/lib/fuse.c. A pointer to a node is the node's
-- `nodeid`, and `nodes` are the nodes that are not freed. A chain of a table is a list of
-- pointers: `id_next` and `name_next` are its tails.
pub mod Ops
pub mod Count
pub mod Invariant
pub mod Unref
pub mod Free
pub mod Order
pub mod Unhash
pub mod Forget
pub mod Lookup
pub mod Names
pub mod Remove
pub mod NextId
pub mod Newborn
pub mod Find
pub mod Stays
pub mod Renamed
pub mod Cleared
pub mod Rehash
pub mod Rename
pub mod Tests
use fuse_nt.Prelude.{
  ℕ, zero, suc, ◌+◌, ◌-◌, ◌*◌, ◌%◌, ◌^◌, Bool, true, false, ◌&&◌, ◌||◌, not, Option, none, some,
  List, [], ◌∷◌, ltb, leb, ◌==◌, if◌then◌else◌, length,
}
use fuse_nt.Prelude.Int.{ℤ, pos, ◌==ℤ◌}
use fuse_nt.Prelude.Run.{Run, ok, err, abort, out_of_fuel, M, Cmd, ◌>>◌, ◌>>=◌, and_then, assert}
use fuse_nt.Prelude.Memory.{Str, Mem, next_alloc}
use fuse_nt.Prelude.Strings.{str_eq}

pub record Node : Type 0 where
  pub nodeid : ℕ
  pub generation : ℕ
  pub refctr : ℕ
  pub parent : Option ℕ
  pub name : Option Str
  pub nlookup : ℕ
  pub open_count : ℕ
  pub is_hidden : Bool
  pub treelock : ℤ
  pub ticket : ℕ

pub record Fuse : Type 0 where
  pub nodes : List Node
  pub id_table : ℕ → List ℕ
  pub id_table_size : ℕ
  pub name_table : ℕ → List ℕ
  pub name_table_size : ℕ
  pub ctr : ℕ
  pub generation : ℕ
  pub noforget : Bool
  pub mem : Mem

abbrev pub root_id : ℕ
root_id = 1

-- the node behind a pointer, or `none` if it was freed
abbrev pub get : ℕ → List Node → Option Node
get p [] = none
get p (n ∷ ns) = if n.nodeid == p then some n else get p ns

abbrev pub modify : ℕ → (Node → Node) → List Node → List Node
modify p g [] = []
modify p g (n ∷ ns) = (if n.nodeid == p then g n else n) ∷ modify p g ns

abbrev pub erase : ℕ → List Node → List Node
erase p [] = []
erase p (n ∷ ns) = if n.nodeid == p then erase p ns else n ∷ erase p ns

-- a change of one chain
abbrev pub at_index : ℕ → (List ℕ → List ℕ) → (ℕ → List ℕ) → ℕ → List ℕ
at_index h g table i = if i == h then g (table i) else table i

abbrev pub remove_first : ℕ → List ℕ → List ℕ
remove_first p [] = []
remove_first p (q ∷ qs) = if q == p then qs else q ∷ remove_first p qs

abbrev pub contains : ℕ → List ℕ → Bool
contains p [] = false
contains p (q ∷ qs) = q == p || contains p qs

-- a pointer from a chain, none, or a read of freed memory
pub data Found : Type 0 where
  found : ℕ → Found
  missing : Found
  dangling : Found

abbrev pub found_if : (ℕ → Option Node → Found → Found) → List Node → List ℕ → Found
found_if test ns [] = missing
found_if test ns (p ∷ ps) = test p (get p ns) (found_if test ns ps)

-- `node->nodeid == nodeid`
abbrev pub test_id : ℕ → ℕ → Option Node → Found → Found
test_id nodeid p none rest = dangling
test_id nodeid p (some n) rest = if n.nodeid == nodeid then found p else rest

unfoldable pub get_node_nocheck : Fuse → ℕ → Found
get_node_nocheck f nodeid =
    found_if (test_id nodeid) f.nodes (f.id_table (nodeid % f.id_table_size))

-- `strcmp(node->name, name) == 0`
abbrev pub test_str : Str → ℕ → Option Str → Found → Found
test_str name p none rest = dangling
test_str name p (some s) rest = if str_eq s name then found p else rest

-- `node->parent->nodeid == parent`
abbrev pub test_parent : ℕ → Option Node → Found → Found → Found
test_parent parent none same rest = dangling
test_parent parent (some n) same rest = if n.nodeid == parent then same else rest

abbrev pub parent_of : List Node → Option ℕ → Option Node
parent_of ns none = none
parent_of ns (some p) = get p ns

abbrev pub test_name : List Node → ℕ → Str → ℕ → Option Node → Found → Found
test_name ns parent name p none rest = dangling
test_name ns parent name p (some n) rest =
    test_parent parent (parent_of ns n.parent) (test_str name p n.name rest) rest

-- a `char` as `unsigned int`
abbrev pub char_bits : ℕ → ℕ
char_bits c = if ltb c 128 then c else 2 ^ 32 - 256 + c

abbrev pub hash_rest : ℕ → Str → ℕ
hash_rest hash [] = hash
hash_rest hash (c ∷ cs) = hash_rest ((hash * 32 % 2 ^ 32 + 2 ^ 32 - hash + char_bits c) % 2 ^ 32) cs

abbrev pub hash_str : Str → ℕ
hash_str [] = 0
hash_str (c ∷ cs) = hash_rest (char_bits c) cs

unfoldable pub name_hash : ℕ → ℕ → Str → ℕ
name_hash size parent name = (hash_str name + parent) % 2 ^ 64 % size

unfoldable pub lookup_node : Fuse → ℕ → Str → Found
lookup_node f parent name =
    found_if (test_name f.nodes parent name) f.nodes
      (f.name_table (name_hash f.name_table_size parent name))

-- a call that needs its node
abbrev pub with_node : {A : Type 0} → Option Node → (Node → M Fuse A) → M Fuse A
with_node none k f = abort
with_node (some n) k f = k n f

abbrev pub deref : {A : Type 0} → ℕ → (Node → M Fuse A) → M Fuse A
deref p k f = with_node (get p f.nodes) k f

-- `get_node`: a missing node aborts
abbrev pub needed : Found → M Fuse ℕ
needed (found p) f = ok p f
needed missing f = abort
needed dangling f = abort

abbrev pub get_node : ℕ → M Fuse ℕ
get_node nodeid f = needed (get_node_nocheck f nodeid) f

abbrev pub update : ℕ → (Node → Node) → Cmd Fuse
update p g f = ok tt (record f { nodes = modify p g f.nodes })

unfoldable pub unhash_id : ℕ → Cmd Fuse
unhash_id p f =
    ok tt (record f { id_table = at_index (p % f.id_table_size) (remove_first p) f.id_table })

unfoldable pub hash_id : ℕ → Cmd Fuse
hash_id p f =
    ok tt (record f { id_table = at_index (p % f.id_table_size) (λ ps. p ∷ ps) f.id_table })

-- `free_node`
abbrev pub free_node : ℕ → Cmd Fuse
free_node p f = ok tt (record f { nodes = erase p f.nodes })

abbrev pub is_null : {A : Type 0} → Option A → Bool
is_null none = true
is_null (some a) = false

unfoldable pub delete_node : ℕ → Cmd Fuse
unfolding unhash_id
delete_node p =
    deref p λ n.
      assert (n.treelock ==ℤ pos 0) >> (assert (is_null n.name) >> (unhash_id p >> free_node p))

abbrev pub drop_ref : Node → Node
drop_ref n = record n { refctr = n.refctr - 1 }

abbrev pub add_ref : Node → Node
add_ref n = record n { refctr = n.refctr + 1 }

unfoldable pub unref_node : ℕ → Cmd Fuse
unref_node p = deref p λ n f.
    if n.refctr == 0
    then abort
    else if n.refctr == 1
    then (update p drop_ref >> delete_node p) f
    else update p drop_ref f

abbrev pub clear_name : Node → Node
clear_name n = record n { name = none; parent = none }

-- a chain without the node: "unable to unhash node" aborts
abbrev pub unchain : ℕ → ℕ → Cmd Fuse
unchain h p f =
    if contains p (f.name_table h)
    then ok tt (record f { name_table = at_index h (remove_first p) f.name_table })
    else abort

abbrev pub unhash_from : ℕ → Str → Option ℕ → Cmd Fuse
unhash_from p name none f = abort
unhash_from p name (some q) f =
    deref q
      (λ parent.
        unchain (name_hash f.name_table_size parent.nodeid name) p
        >> (unref_node q >> update p clear_name))
      f

abbrev pub unhash_named : ℕ → Option ℕ → Option Str → Cmd Fuse
unhash_named p parent none f = ok tt f
unhash_named p parent (some name) f = unhash_from p name parent f

unfoldable pub unhash_name : ℕ → Cmd Fuse
unhash_name p = deref p λ n. unhash_named p n.parent n.name
