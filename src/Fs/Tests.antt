-- ===== src/Fs/Tests.antt =====
-- A disk of 8 blocks, of which only block 0 is used, and a file without blocks.
use ele3021_operating_system.Base.{ℕ, false, ◌≡◌, ◌≢◌, refl, some, List, [], ◌∷◌, ◌==◌, arith}
use ele3021_operating_system.Fs.{
  Store, Place, in_inode, in_block, read, write, find_free, balloc, get_slot, bmap,
}
use ele3021_operating_system.Base.Loops.{try_sweep}
use ele3021_operating_system.Fs.Trunc.{itrunc, free_slot, free_indirect, drop_block, bfree}
use ele3021_operating_system.Fs.Trunc.Whole.{Truncates, itrunc_lem}
use ele3021_operating_system.Fs.Tree.{IsTree, taken}
use ele3021_operating_system.Fs.Bmap.{IsPath, lookup}
use ele3021_operating_system.Fs.Blocks.{bmap_lem}

abbrev empty_file : Store
empty_file = record {
  size = 8;
  used = λ b. b == 0;
  words = λ b i. 0;
  addrs = λ i. 0;
  file_size = 0;
}

abbrev no_levels : ℕ → ℕ
no_levels b = 0

reads_nothing : (p : Place) → read p empty_file ≡ 0
reads_nothing (in_inode i) = refl
reads_nothing (in_block b i) = refl

empty_file-IsTree : IsTree no_levels empty_file
empty_file-IsTree = record {
  boot_used = refl;
  free_plain = λ b h. refl;
  named_used = λ p l ne. absurd (ne (reads_nothing p));
  named_level = λ p l ne. absurd (ne (reads_nothing p));
  apart = λ p q lp lq ne e. absurd (ne (reads_nothing p));
}

-- Block 13 of the file is the third behind the indirect block.
thirteen-IsPath : IsPath 10 (3 ∷ [])
thirteen-IsPath = record { root_below = omega arith; levels = refl; digits = (omega arith, tt) }

-- Block 1 of the disk becomes the indirect block, and block 2 holds the data.
abbrev grown_file : Store
grown_file = write (in_block 1 3) 2 (taken 2 (write (in_inode 10) 1 (taken 1 empty_file)))

bmap_run : bmap 13 empty_file ≡ some (2, grown_file)
unfolding bmap get_slot balloc find_free
bmap_run = refl

bmap_lem_example :
    (level' : ℕ → ℕ) × IsTree level' grown_file
    × (lookup grown_file 10 (3 ∷ []) ≡ 2)
    × (◌≢◌ {A = ℕ} 2 0)
    × (level' 2 ≡ 0)
    × ((root2 : ℕ) (js2 : List ℕ)
        → IsPath root2 js2
        → lookup empty_file root2 js2 ≢ 0
        → lookup grown_file root2 js2 ≡ lookup empty_file root2 js2)
bmap_lem_example =
    bmap_lem no_levels 10 (3 ∷ []) empty_file empty_file-IsTree thirteen-IsPath bmap_run

-- The file of block 13 is truncated again.
itrunc_run :
    (s' : Store) × (itrunc grown_file ≡ some s') × (s'.used 1 ≡ false) × (s'.used 2 ≡ false)
unfolding itrunc free_slot free_indirect drop_block bfree try_sweep
itrunc_run = (_, refl, refl, refl)

-- The levels of the file of block 13.
abbrev grown_levels : ℕ → ℕ
grown_levels =
    (bmap_lem no_levels 10 (3 ∷ []) empty_file empty_file-IsTree thirteen-IsPath bmap_run).0

itrunc_lem_example :
    (s' : Store) × (itrunc grown_file ≡ some s') × Truncates grown_levels grown_file s'
itrunc_lem_example =
    itrunc_lem grown_levels grown_file
      (bmap_lem no_levels 10 (3 ∷ []) empty_file empty_file-IsTree thirteen-IsPath bmap_run).1
