-- ===== src/File.antt =====
-- src/file.c: `file_copy`, over what the system calls return. The modes of the files are left out.
pub mod Copies
pub mod Space
mod Tests
use libhelp.Base.{
  ℕ, ◌+◌, Bool, true, false, not, List, [], ◌∷◌, ◌++◌, Bytes, ◌==◌, length, take, if◌then◌else◌, ℤ,
  pos, negsuc,
}

-- what the system calls give to a copy
pub record Calls : Type 0 where
  -- whether `open` and `creat` succeed
  pub opens : Bool
  pub creates : Bool
  -- the bytes of each `read` that returns more than 0; the next one returns 0 or -1
  pub reads : List Bytes
  -- how many bytes each `write` takes
  pub writes : ℕ → ℕ

-- what a copy returns and leaves: the bytes in the new file, and whether the descriptors are open
pub record Copy : Type 0 where
  pub status : ℤ
  pub target : Bytes
  pub from_open : Bool
  pub to_open : Bool

-- the loop: whether it ends without a short `write`, and the bytes in the new file
unfoldable pub copy_rounds : (ℕ → ℕ) → ℕ → List Bytes → Bytes → Bool × Bytes
copy_rounds writes n [] target = (true, target)
copy_rounds writes n (buf ∷ rest) target =
    let further = copy_rounds writes (n + 1) rest (target ++ buf) in
    if writes n == length buf then further else (false, target ++ take (writes n) buf)

-- for a new file that held `old`
unfoldable pub file_copy : Calls → Bytes → Copy
unfolding copy_rounds
file_copy calls old =
    let (whole, target) = copy_rounds calls.writes 0 calls.reads [] in
    if not calls.opens
    then record { status = negsuc 0; target = old; from_open = false; to_open = false }
    else if not calls.creates
    then record { status = negsuc 0; target = old; from_open = true; to_open = false }
    else if whole
    then record { status = pos 0; target = target; from_open = false; to_open = false }
    else record { status = negsuc 0; target = target; from_open = true; to_open = true }
