-- ===== src/File/Space.antt =====
-- `memory_free`, `memory_all` and `xserver_is_start` of src/file.c. What `statvfs` and `XOpenDisplay`
-- return is an argument.
use libhelp.Base.{
  ℕ, ◌+◌, ◌*◌, ◌/◌, ◌%◌, ◌≤◌, ◌<◌, arith, Bool, true, false, Option, none, some, word,
  if◌then◌else◌, ℤ, pos, negsuc,
}
use native.Mathlib.Nat.{mul-le-mul_left}

-- the fields of `struct statvfs` that are used
pub record Statvfs : Type 0 where
  pub f_frsize : ℕ
  pub f_blocks : ℕ
  pub f_bfree : ℕ
  pub f_bavail : ℕ

abbrev pub mbyte : ℕ
mbyte = 1024 * 1024

-- the bytes that a user may take, as a `size_t`; `root` is `geteuid() == 0`
abbrev pub size_free : Bool → Statvfs → ℕ
size_free root fs = (if root then fs.f_frsize * fs.f_bfree else fs.f_frsize * fs.f_bavail) % word

-- the quotient is one of integers; a `statvfs` that fails gives 0
unfoldable pub memory_free : Bool → Option Statvfs → ℕ
memory_free root none = 0
memory_free root (some fs) = size_free root fs / mbyte

unfoldable pub memory_all : Option Statvfs → ℕ
memory_all none = 0
memory_all (some fs) = (fs.f_frsize * fs.f_blocks) % word / mbyte

-- what is returned, and what is given to `free`
unfoldable pub xserver_is_start : Option ℕ → ℤ × Option ℕ
xserver_is_start none = (negsuc 0, none)
xserver_is_start (some dsp) = (pos 0, some dsp)

-- A file system whose blocks are counted as `statvfs` says: an unprivileged user may take no more blocks
-- than are free, and all its bytes are a `size_t`.
pub record IsFileSystem (fs : Statvfs) : Type 0 where
  pub avail_le : fs.f_bavail ≤ fs.f_bfree
  pub free_le : fs.f_bfree ≤ fs.f_blocks
  pub small : fs.f_frsize * fs.f_blocks < word

-- Whole megabytes of some bytes, not more than others.
pub record IsPart (bytes all megabytes : ℕ) : Type 0 where
  pub low : megabytes * mbyte ≤ bytes
  pub high : bytes < (megabytes + 1) * mbyte
  pub part : megabytes ≤ all

quotient-IsPart :
    (bytes all : ℕ)
    → bytes ≤ all
    → all < word
    → IsPart bytes (all % word / mbyte) (bytes % word / mbyte)
quotient-IsPart bytes all h k = record {
  low = omega (arith, h, k);
  high = omega (arith, h, k);
  part = omega (arith, h, k);
}

-- On such a file system `memory_free` is the whole megabytes of the bytes that the user may take, for root
-- and for others, and never more than `memory_all`.
pub memory_free-memory_all :
    (root : Bool) (fs : Statvfs)
    → IsFileSystem fs
    → IsPart
        (fs.f_frsize * (if root then fs.f_bfree else fs.f_bavail))
        (memory_all (some fs))
        (memory_free root (some fs))
unfolding memory_free memory_all
memory_free-memory_all true fs is =
    let less = mul-le-mul_left fs.f_frsize is.free_le in
    quotient-IsPart (fs.f_frsize * fs.f_bfree) (fs.f_frsize * fs.f_blocks) less is.small
memory_free-memory_all false fs is =
    let less = mul-le-mul_left fs.f_frsize is.free_le in
    let less' = mul-le-mul_left fs.f_frsize is.avail_le in
    quotient-IsPart (fs.f_frsize * fs.f_bavail) (fs.f_frsize * fs.f_blocks)
      (omega (arith, less, less')) is.small
