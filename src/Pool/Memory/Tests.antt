-- ===== src/Pool/Memory/Tests.antt =====
-- Runs of src/pool.c, and of the macros of src/str.h that use it, in a heap with the laws of
-- Pool/Memory.
use libhelp.Base.{ℕ, ◌+◌, ◌/◌, ◌%◌, ◌^◌, ◌≡◌, refl, some, [], ◌∷◌, ◌++◌, Bytes, arith, codes}
use libhelp.Pool.{Allocated, Pool, ok, pool_new, pool_alloc, pool_cpy}
use libhelp.Pool.Memory.{Good}
use libhelp.Pool.Strings.{Layout, pstr_new, pstr_cpy, pstr_dup, pstr_ncpy}
use libhelp.Pool.Strings.Stands.{MakesStr, pstr-MakesStr}
use libhelp.Pool.Memory.Copy.{Copies, pool_cpy-Copies}
use libhelp.Pool.Memory.New.{pool_new-IsGoodNew}
use libhelp.Pool.Memory.Sample.{Arena, arena, arena-IsAllocator}

abbrev before : Arena
before = record { next = 8192; at = λ a. 255 }

abbrev heap : Arena
heap = record { next = 12288; at = λ a. 255 }

abbrev pool : Pool
pool = record {
  blocks = record { base = 8192; last = 8248; end = 12288; rmd = 32 } ∷ [];
  cur = 0;
  size = 4096;
  large = [];
}

pool_made : pool_new {m = arena} before 4096 32 ≡ ok (some 8192) pool heap
unfolding pool_new
pool_made = refl

pool-Good : Good arena-IsAllocator 4096 heap pool
unfolding pool_new
pool-Good = pool_new-IsGoodNew arena-IsAllocator before 4096 32 refl (omega arith)

abbrev hello : Bytes
hello = codes "hello" ++ (0 ∷ [])

pool_cpy-Copies_example :
    Copies arena-IsAllocator 4096 heap pool hello (pool_cpy {m = arena} 2 heap pool hello)
pool_cpy-Copies_example = pool_cpy-Copies arena-IsAllocator 4096 heap pool hello 0 pool-Good

-- a size and a pointer, of 8 bytes each with the lowest first
abbrev eight_bytes : ℕ → Bytes
eight_bytes n =
    n % 256
    ∷ n / 2 ^ 8 % 256
    ∷ n / 2 ^ 16 % 256
    ∷ n / 2 ^ 24 % 256
    ∷ n / 2 ^ 32 % 256
    ∷ n / 2 ^ 40 % 256
    ∷ n / 2 ^ 48 % 256
    ∷ n / 2 ^ 56 % 256
    ∷ []

abbrev str : Layout
str = record {
  sizeof_str = 16;
  fields = λ size at. eight_bytes size ++ eight_bytes at;
  length-fields = λ size at. refl;
}

pstr-MakesStr_example :
    MakesStr arena-IsAllocator str 4096 heap pool 2
      (codes "hi" ++ (0 ∷ []))
      (pstr_cpy {m = arena} str 2 heap pool (codes "hi"))
    × MakesStr arena-IsAllocator str 4096 heap pool 5 hello
        (pstr_dup {m = arena} str 2 heap pool 5 hello)
    × MakesStr arena-IsAllocator str 4096 heap pool 3
        (codes "hell")
        (pstr_ncpy {m = arena} str 2 heap pool hello 3)
pstr-MakesStr_example =
    pstr-MakesStr arena-IsAllocator str 4096 heap pool 0 3 5 (codes "hi") hello hello pool-Good
      (omega arith) refl (omega arith) (omega arith) (omega arith)

-- three bytes are asked for, and no NUL is behind them
abbrev FourthByte : Allocated arena → Type 0
FourthByte (ok (some s) pool' h) = h.at (s + 16 + 3) ≡ b'l'
FourthByte _ = ⊥

not_ended : FourthByte (pstr_ncpy {m = arena} str 2 heap pool hello 3)
unfolding pstr_ncpy pool_alloc
not_ended = refl

abbrev NulBehind : Allocated arena → Type 0
NulBehind (ok (some s) pool' h) = h.at (s + 16 + 3) ≡ 0
NulBehind _ = ⊥

new_ended : NulBehind (pstr_new {m = arena} str 2 heap pool 3)
unfolding pstr_new pool_alloc
new_ended = refl
