-- ===== src/File/Tests.antt =====
-- Copies by `file_copy` of src/file.c.
use libhelp.Base.{
  arith, none, ℕ, zero, suc, ◌≡◌, refl, ap, true, some, eq_of_some, [], ◌∷◌, Bytes, codes, length,
  get_elem?, pos, negsuc, if◌then◌else◌, ◌==◌,
}
use libhelp.File.{Calls, file_copy}
use libhelp.File.Space.{Statvfs, memory_free, xserver_is_start, IsFileSystem}
use libhelp.File.Copies.{complete, file_copy-complete}

abbrev calls : Calls
calls = record {
  opens = true;
  creates = true;
  reads = codes "abcd" ∷ codes "ef" ∷ [];
  writes = λ n. if n == 0 then 4 else 2;
}

copied : (file_copy calls []).status ≡ pos 0
unfolding file_copy
copied = refl

file_copy-complete_example : file_copy calls [] ≡ complete calls
file_copy-complete_example = file_copy-complete calls [] copied

each_write : (i : ℕ) (b : Bytes) → get_elem? calls.reads i ≡ some b → calls.writes i ≡ length b
each_write zero b e = ap length (eq_of_some e)
each_write (suc zero) b e = ap length (eq_of_some e)
each_write (suc (suc i)) b e = absurd cc

-- a full disk leaves a part of the file, and two open descriptors
full_disk :
    file_copy (record calls { writes = λ n. 3 }) []
    ≡ record { status = negsuc 0; target = codes "abc"; from_open = true; to_open = true }
unfolding file_copy
full_disk = refl

-- a disk of 40 MB with blocks of 4 KB, of which 10 MB are free, and 8 MB for users
abbrev disk : Statvfs
disk = record { f_frsize = 4096; f_blocks = 10240; f_bfree = 2560; f_bavail = 2048 }

disk-IsFileSystem : IsFileSystem disk
disk-IsFileSystem = record { avail_le = omega arith; free_le = omega arith; small = omega arith }

for_root : memory_free true (some disk) ≡ 10
unfolding memory_free
for_root = refl

no_server : xserver_is_start none ≡ (negsuc 0, none)
unfolding xserver_is_start
no_server = refl
