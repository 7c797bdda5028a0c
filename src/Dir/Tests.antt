-- ===== src/Dir/Tests.antt =====
-- Runs of the directory buffer, and its theorems at a directory with two entries.
use fuse_nt.Prelude.{◌≤◌, ◌<◌, ◌≡◌, refl, true, false, [], ◌∷◌, none, some, arith, take}
use fuse_nt.Prelude.Int.{ℤ, pos}
use fuse_nt.Prelude.Run.{ok}
use fuse_nt.Prelude.Memory.{Mem}
use fuse_nt.Dir.{Dh, Names, dirent_size, fill_dir, grow, extend_contents, add_direntry}
use fuse_nt.Dir.Read.{
  Program, return, offer, run_readdir, reply_buf, reply_err, enomem_code, lib_readdir, readdir_fill,
  reply_from,
}
use fuse_nt.Dir.Listing.{Entry, listing, packed, total}
use fuse_nt.Dir.Reply.{Answered, IsRead, lib_readdir-Answered, lib_readdir_continues}
use fuse_nt.Dir.Bounded.{returns, offers, IsPart, run_readdir-Part}

abbrev names : Names
names = record { use_ino = true; readdir_ino = false; child_ino = λ _. none }

abbrev dot : Entry
dot = (b'.' ∷ [], some (record { ino = 1; mode = 16384 }))

abbrev file : Entry
file = (b'a' ∷ (b'b' ∷ []), none)

abbrev empty : Dh
empty = record { contents = []; len = 0; size = 0; needlen = 0; filled = false; enomem = false }

abbrev full : Dh
full = record {
  contents = packed names 0 (dot ∷ file ∷ []);
  len = 64;
  size = 1024;
  needlen = 4096;
  filled = true;
  enomem = false;
}

full-IsRead : IsRead names (dot ∷ file ∷ []) full
unfolding dirent_size
full-IsRead = record { bytes = refl; counted = refl; is_filled = refl }

-- the first request reads the directory into a block of 1024 bytes
first_request :
    lib_readdir names none (listing (dot ∷ file ∷ [])) 4096 0 (empty, [])
    ≡ ok (reply_buf (packed names 0 (dot ∷ file ∷ []))) (full, [])
unfolding lib_readdir readdir_fill run_readdir reply_from fill_dir extend_contents grow add_direntry
first_request = refl

-- without memory
no_memory_request :
    lib_readdir names none (listing (dot ∷ [])) 4096 0 (empty, false ∷ [])
    ≡ ok (reply_err enomem_code) (record empty { needlen = 4096; enomem = true }, [])
unfolding lib_readdir readdir_fill run_readdir reply_from fill_dir extend_contents grow add_direntry
no_memory_request = refl

small : total (dot ∷ file ∷ []) < 4294967296
unfolding dirent_size
small = omega arith

lib_readdir-Answered_example : Answered names (dot ∷ file ∷ []) 4096 0 empty []
lib_readdir-Answered_example =
    lib_readdir-Answered names (dot ∷ file ∷ []) 4096 0 empty [] (omega arith, (omega arith, tt))
      small (omega arith) refl

some_bytes : 1 ≤ total (dot ∷ [])
unfolding dirent_size
some_bytes = omega arith

lib_readdir_continues_example :
    lib_readdir names none (return (pos 0)) 4096 (total (dot ∷ [])) (full, [])
    ≡ ok (reply_buf (take 4096 (packed names (total (dot ∷ [])) (file ∷ [])))) (full, [])
lib_readdir_continues_example =
    lib_readdir_continues names (dot ∷ []) (file ∷ []) 4096 none (return (pos 0)) full []
      (omega arith, (omega arith, tt)) some_bytes full-IsRead

-- offers one entry again and again, refused or not
abbrev stubborn : Program
stubborn = offer (b'a' ∷ []) none 7 (λ _. offer (b'b' ∷ []) none 8 (λ _. return (pos 0)))

run_readdir-Part_example :
    (r : ℤ) × (dh' : Dh) × (mem' : Mem) × (run_readdir names stubborn
        (record empty { needlen = 40 }, [])
      ≡ ok r (dh', mem'))
    × IsPart dh'
    × (dh'.needlen ≡ 40)
run_readdir-Part_example =
    run_readdir-Part names stubborn (record empty { needlen = 40 }) []
      (offers _ _ _ _ refl (omega arith) (λ _. offers _ _ _ _ refl (omega arith) (λ _. returns _)))
      (record {
        counted = refl;
        asked = omega arith;
        size_bounded = omega arith;
        needlen_bounded = omega arith;
      })
