-- ===== src/Nodes/Ops.antt =====
-- `hash_name`, `next_id`, `find_node`, `forget_node`, `unlink_node`, `remove_node` and `rename_node` of
-- fuse-2.8.5/lib/fuse.c. The waiting of `forget_node` for a path lock is left out: its node is not
-- locked.
use fuse_nt.Prelude.{
  ℕ, zero, suc, ◌+◌, ◌-◌, ◌%◌, ◌^◌, Bool, true, false, ◌||◌, Option, none, some, ◌∷◌, ltb, leb,
  ◌==◌, if◌then◌else◌, length,
}
use fuse_nt.Prelude.Int.{pos}
use fuse_nt.Prelude.Run.{Run, ok, err, abort, out_of_fuel, M, Cmd, ◌>>◌, ◌>>=◌, assert}
use fuse_nt.Prelude.Memory.{Str, next_alloc}
use fuse_nt.Nodes.{
  Node, Fuse, erase, deref, get_node, get_node_nocheck, Found, found, missing, dangling, update,
  add_ref, name_hash, at_index, lookup_node, hash_id, root_id, unhash_name, unref_node,
}

-- the outcome of the next allocation
abbrev pub alloc : M Fuse Bool
alloc f = let (got, mem') = next_alloc f.mem in ok got (record f { mem = mem' })

abbrev pub name_under : ℕ → Str → Node → Node
name_under parent name n = record n { name = some name; parent = some parent }

abbrev pub chain_name : ℕ → ℕ → Cmd Fuse
chain_name h p f = ok tt (record f { name_table = at_index h (λ ps. p ∷ ps) f.name_table })

-- what follows `strdup` in `hash_name`
abbrev pub hash_copied : ℕ → ℕ → ℕ → Str → Bool → Cmd Fuse
hash_copied p parentid parent name false f = err f
hash_copied p parentid parent name true f =
    (update parent add_ref
        >> (update p (name_under parent name)
            >> chain_name (name_hash f.name_table_size parentid name) p))
      f

-- `return -1` where the name cannot be copied
unfoldable pub hash_name : ℕ → ℕ → Str → Cmd Fuse
hash_name p parentid name =
    get_node parentid >>= λ parent. alloc >>= hash_copied p parentid parent name

abbrev pub unknown_id : ℕ
unknown_id = 4294967295

abbrev pub step_ctr : Fuse → Fuse
step_ctr f =
    let ctr' = (f.ctr + 1) % 2 ^ 32 in
    record f {
      ctr = ctr';
      generation = if ctr' == 0 then (f.generation + 1) % 2 ^ 32 else f.generation;
    }

-- the end of a round of `next_id`, given the rounds behind it
abbrev pub if_unused : Found → M Fuse ℕ → M Fuse ℕ
if_unused missing again f = ok f.ctr f
if_unused (found p) again f = again f
if_unused dangling again f = abort

unfoldable pub next_id : ℕ → M Fuse ℕ
next_id zero f = out_of_fuel
next_id (suc fuel) f =
    let f' = step_ctr f in
    let again = next_id fuel f' in
    if f'.ctr == 0 || f'.ctr == unknown_id
    then again
    else if_unused (get_node_nocheck f' f'.ctr) (next_id fuel) f'

-- Every used number costs a round, and so do 0 and `FUSE_UNKNOWN_INO`.
abbrev pub id_rounds : Fuse → ℕ
id_rounds f = length f.nodes + 3

-- the node that `find_node` makes, before its name
abbrev pub fresh_node : ℕ → ℕ → Bool → Node
fresh_node id generation noforget = record {
  nodeid = id;
  generation = generation;
  refctr = 1;
  parent = none;
  name = none;
  nlookup = if noforget then 1 else 0;
  open_count = 0;
  is_hidden = false;
  treelock = pos 0;
  ticket = 0;
}

abbrev pub add_node : ℕ → Cmd Fuse
add_node id f = ok tt (record f { nodes = fresh_node id f.generation f.noforget ∷ f.nodes })

abbrev pub discard_node : {A : Type 0} → M Fuse A
discard_node f = err f

-- the new node goes away again if it cannot be hashed
abbrev pub free_on_err : ℕ → Run Fuse Unit → Run Fuse Unit
free_on_err p (ok a f) = ok a f
free_on_err p (err f) = err (record f { nodes = erase p f.nodes })
free_on_err p abort = abort
free_on_err p out_of_fuel = out_of_fuel

abbrev pub or_free : ℕ → Cmd Fuse → Cmd Fuse
or_free p act f = free_on_err p (act f)

abbrev pub make_with : ℕ → Str → Bool → M Fuse ℕ
make_with parent name false f = err f
make_with parent name true f =
    (next_id (id_rounds f) >>= λ id.
    add_node id >> (or_free id (hash_name id parent name) >> (hash_id id >> (λ f'. ok id f'))))
      f

abbrev pub make_node : ℕ → Str → M Fuse ℕ
make_node parent name = alloc >>= make_with parent name

abbrev pub add_lookup : Node → Node
add_lookup n = record n { nlookup = n.nlookup + 1 }

abbrev pub found_or : Found → M Fuse ℕ → M Fuse ℕ
found_or (found p) other f = ok p f
found_or missing other f = other f
found_or dangling other f = abort

abbrev pub find_or_make : ℕ → Option Str → M Fuse ℕ
find_or_make parent none f = get_node parent f
find_or_make parent (some name) f = found_or (lookup_node f parent name) (make_node parent name) f

-- NULL is `err`
unfoldable pub find_node : ℕ → Option Str → M Fuse ℕ
find_node parent name = find_or_make parent name >>= λ p. update p add_lookup >> (λ f. ok p f)

abbrev pub drop_lookups : ℕ → Node → Node
drop_lookups k n = record n { nlookup = n.nlookup - k }

abbrev pub if_forgotten : ℕ → Cmd Fuse
if_forgotten p =
    deref p λ n f. if n.nlookup == 0 then (unhash_name p >> unref_node p) f else ok tt f

abbrev pub forget_found : ℕ → ℕ → Cmd Fuse
forget_found nlookup p =
    deref p
      λ n. assert (leb nlookup n.nlookup) >> (update p (drop_lookups nlookup) >> if_forgotten p)

unfoldable pub forget_node : ℕ → ℕ → Cmd Fuse
forget_node nodeid nlookup f =
    if nodeid == root_id then ok tt f else (get_node nodeid >>= forget_found nlookup) f

unfoldable pub unlink_node : ℕ → Cmd Fuse
unlink_node p f =
    if f.noforget
    then ((deref p λ n. assert (ltb 1 n.nlookup)) >> (update p (drop_lookups 1) >> unhash_name p)) f
    else unhash_name p f

abbrev pub unlink_found : Found → Cmd Fuse
unlink_found (found p) f = unlink_node p f
unlink_found missing f = ok tt f
unlink_found dangling f = abort

unfoldable pub remove_node : ℕ → Str → Cmd Fuse
remove_node dir name f = unlink_found (lookup_node f dir name) f

-- what `rename_node` returns
pub data Renamed : Type 0 where
  renamed ebusy enomem : Renamed

abbrev pub hide_it : ℕ → Bool → Cmd Fuse
hide_it p false f = ok tt f
hide_it p true f = update p (λ n. record n { is_hidden = true }) f

-- -ENOMEM where the new name cannot be copied: the node stays without a name
abbrev pub end_rename : ℕ → Bool → Run Fuse Unit → Run Fuse Renamed
end_rename p hide (ok a f) = (hide_it p hide >> (λ f'. ok renamed f')) f
end_rename p hide (err f) = ok enomem f
end_rename p hide abort = abort
end_rename p hide out_of_fuel = out_of_fuel

abbrev pub rehash : ℕ → ℕ → Str → Bool → M Fuse Renamed
rehash p newdir newname hide f = end_rename p hide ((unhash_name p >> hash_name p newdir newname) f)

abbrev pub rename_found : Found → Found → ℕ → Str → Bool → M Fuse Renamed
rename_found dangling newnode newdir newname hide f = abort
rename_found missing dangling newdir newname hide f = abort
rename_found missing missing newdir newname hide f = ok renamed f
rename_found missing (found q) newdir newname hide f = ok renamed f
rename_found (found p) dangling newdir newname hide f = abort
rename_found (found p) missing newdir newname hide f = rehash p newdir newname hide f
rename_found (found p) (found q) newdir newname hide f =
    if hide then ok ebusy f else (unlink_node q >> rehash p newdir newname hide) f

unfoldable pub rename_node : ℕ → Str → ℕ → Str → Bool → M Fuse Renamed
rename_node olddir oldname newdir newname hide f =
    rename_found (lookup_node f olddir oldname) (lookup_node f newdir newname) newdir newname hide f
