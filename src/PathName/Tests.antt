-- ===== src/PathName/Tests.antt =====
-- Names that are written into a buffer of four bytes.
use fuse_nt.Prelude.{ℕ, zero, suc, ◌≡◌, refl, ap, List, [], ◌∷◌, length, arith}
use fuse_nt.Prelude.Run.{ok}
use fuse_nt.Dir.{grow}
use fuse_nt.PathName.{PathBuf, add_name}
use fuse_nt.PathName.Added.{IsBuf, Added, add_name-Added}

abbrev zeros : ℕ → List ℕ
zeros zero = []
zeros (suc n) = 0 ∷ zeros n

length-zeros : (n : ℕ) → length (zeros n) ≡ n
length-zeros zero = refl
length-zeros (suc n) = ap suc (length-zeros n)

abbrev empty_path : PathBuf
empty_path = record { block = zeros 4; bufsize = 4; offset = 3 }

empty_path-IsBuf : IsBuf empty_path
empty_path-IsBuf = record { has_size = refl; inside = omega arith; fits = omega arith }

-- a name that fits, and one for which the buffer grows
short_name :
    add_name zeros (b'a' ∷ []) (empty_path, [])
    ≡ ok tt (record { block = 0 ∷ (b'/' ∷ (b'a' ∷ (0 ∷ []))); bufsize = 4; offset = 1 }, [])
unfolding add_name
short_name = refl

long_name :
    add_name zeros (b'a' ∷ (b'b' ∷ (b'c' ∷ []))) (empty_path, [])
    ≡ ok tt (
      record {
        block = 0 ∷ (0 ∷ (0 ∷ (b'/' ∷ (b'a' ∷ (b'b' ∷ (b'c' ∷ (0 ∷ [])))))));
        bufsize = 8;
        offset = 3;
      },
      [],
    )
unfolding add_name grow
long_name = refl

add_name-Added_example :
    Added zeros length-zeros empty_path empty_path-IsBuf (b'a' ∷ (b'b' ∷ (b'c' ∷ []))) []
add_name-Added_example =
    add_name-Added zeros length-zeros empty_path empty_path-IsBuf (b'a' ∷ (b'b' ∷ (b'c' ∷ []))) []
      (omega arith)
