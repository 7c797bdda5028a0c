-- ===== src/Dir/Listing.antt =====
-- A directory that is read as a whole, `off` 0 at every call of the filler: `readdir_fill` and
-- `fuse_lib_readdir` of fuse-2.8.5/lib/fuse.c.
use fuse_nt.Prelude.{
  ℕ, ◌+◌, ◌≤◌, ◌<◌, ◌≡◌, refl, true, false, if◌then◌else◌, arith, List, [], ◌∷◌, ◌++◌, Option,
  length, length-append, append_assoc, append-nil,
}
use fuse_nt.Prelude.Int.{pos}
use fuse_nt.Prelude.Run.{ok}
use fuse_nt.Prelude.Memory.{Str, Mem, has_failure}
use fuse_nt.Dir.{Stat, Dh, dirent_size, add_dirent, Names, fill_stat, fill_dir}
use fuse_nt.Dir.Fill.{IsName, IsBuffer, appended, refused, length-add_dirent, fill_dir-Appended}
use fuse_nt.Dir.Read.{Program, return, offer, run_readdir}

abbrev pub Entry : Type 0
Entry = Str × Option Stat

-- a file system that offers these entries until one is refused
abbrev pub listing : List Entry → Program
listing [] = return (pos 0)
listing ((name, statp) ∷ xs) =
    offer name statp 0 (λ full. if full then return (pos 0) else listing xs)

abbrev pub total : List Entry → ℕ
total [] = 0
total ((name, statp) ∷ xs) = dirent_size (length name) + total xs

-- the entries one behind the other, each with the position of the next as its offset
abbrev pub packed : Names → ℕ → List Entry → List ℕ
packed names at [] = []
packed names at ((name, statp) ∷ xs) =
    let next = at + dirent_size (length name) in
    add_dirent name (fill_stat names name statp) next ++ packed names next xs

abbrev pub AreNames : List Entry → Type 0
AreNames [] = Unit {0}
AreNames ((name, statp) ∷ xs) = IsName name × AreNames xs

-- the run of a listing: all entries are in the buffer, or there was no memory
pub data Listed (names : Names) (xs : List Entry) (dh : Dh) (mem : Mem) : Type 0 where
  complete :
      (size : ℕ) (mem' : Mem)
      → run_readdir names (listing xs) (dh, mem)
        ≡ ok (pos 0) (
          record dh {
            contents = dh.contents ++ packed names dh.len xs;
            len = dh.len + total xs;
            size = size;
          },
          mem',
        )
      → Listed names xs dh mem
  incomplete :
      (dh' : Dh) (mem' : Mem)
      → run_readdir names (listing xs) (dh, mem) ≡ ok (pos 0) (dh', mem')
      → dh'.enomem ≡ true
      → has_failure mem ≡ true
      → Listed names xs dh mem

plus_zero : (n : ℕ) → n + 0 ≡ n
plus_zero n = omega arith

pub plus_assoc : (a b c : ℕ) → (a + b) + c ≡ a + (b + c)
plus_assoc a b c = omega arith

-- the buffer behind one entry
abbrev behind : Names → Entry → Dh → ℕ → Dh
behind names (name, statp) dh size = record dh {
  contents =
      dh.contents
      ++ add_dirent name (fill_stat names name statp) (dh.len + dirent_size (length name));
  len = dh.len + dirent_size (length name);
  size = size;
}

behind-IsBuffer :
    (names : Names) (name : Str) (statp : Option Stat) (dh : Dh) (size : ℕ)
    → IsBuffer dh
    → IsName name
    → dh.len + dirent_size (length name) ≤ size
    → size < 4294967296
    → IsBuffer (behind names (name, statp) dh size)
behind-IsBuffer names name statp dh size b h le lt =
    let off = dh.len + dirent_size (length name) in
    let bytes = add_dirent name (fill_stat names name statp) off in
    record {
      counted = omega (
        arith,
        b.counted,
        length-append dh.contents bytes,
        length-add_dirent name (fill_stat names name statp) off h,
      );
      inside = le;
      bounded = lt;
    }

Listed-behind :
    (names : Names) (name : Str) (statp : Option Stat) (xs : List Entry) (dh : Dh) (mem : Mem)
    (size : ℕ) (mem' : Mem)
    → (has_failure mem' ≡ true → has_failure mem ≡ true)
    → fill_dir names name statp 0 (dh, mem) ≡ ok false (behind names (name, statp) dh size, mem')
    → Listed names xs (behind names (name, statp) dh size) mem'
    → Listed names ((name, statp) ∷ xs) dh mem
unfolding run_readdir
Listed-behind names name statp xs dh mem size mem' later e (complete size' mem'' e') =
    let n = dirent_size (length name) in
    let bytes = add_dirent name (fill_stat names name statp) (dh.len + n) in
    complete size' mem'' (
      rw (
        e,
        e',
        append_assoc dh.contents bytes (packed names (dh.len + n) xs),
        plus_assoc dh.len n (total xs),
      ))
Listed-behind names name statp xs dh mem size mem' later e (incomplete dh' mem'' e' en q) =
    incomplete dh' mem'' (rw (e, e')) en (later q)

pub listing-Listed :
    (names : Names) (xs : List Entry) (dh : Dh) (mem : Mem)
    → IsBuffer dh
    → AreNames xs
    → dh.len + total xs < 4294967296
    → Listed names xs dh mem
unfolding run_readdir
listing-Listed names [] dh mem b h hl =
    complete dh.size mem (rw (append-nil dh.contents, plus_zero dh.len))
listing-Listed names ((name, statp) ∷ xs) dh mem b h hl =
    elim (fill_dir-Appended names name statp dh mem b h.0 (omega arith)) [
      | refused mem' e q ↦ incomplete (record dh { enomem = true }) mem' (rw e) refl q
      | appended size mem' e le lt later ↦
          Listed-behind names name statp xs dh mem size mem' later e (
            listing-Listed names xs (behind names (name, statp) dh size) mem'
              (behind-IsBuffer names name statp dh size b h.0 le lt) h.1 (omega arith))
    ]
