-- ===== src/Config/Types.antt =====
-- The data of src/config.c: `config_t`, the states and locals of its parser, and its results.
use libhelp.Base.{ℕ, Option, Bytes}
use libhelp.Config.Judy.{Judy, Memory}

-- the `enum` of the parser's states
pub data State : Type 0 where
  space_s comment_s param_key_s param_key_sp_s : State
  param_value_s param_qt_value_s param_value_skip_s param_copy_value_s : State

-- `config_t`, with the heap that its buffers and its pool are in. `src` is the address of the buffer
-- that is parsed, `conf` the address and the contents of the copy.
pub record Config (j : Judy) (m : Memory) : Type 0 where
  pub entries : j.Arr
  pub heap : m.Heap
  pub src : ℕ
  pub line_error : ℕ
  pub conf : Option (ℕ × Bytes)

-- The locals. `pkey` and `pvalue` are the bytes from the pointer of that name up to `p`, or up to
-- the NUL that the parser writes at the end of the key.
pub record Locals : Type 0 where
  pub state : State
  pub line : ℕ
  pub pkey : Bytes
  pub pvalue : Bytes

-- One round of the loop: `advance` ends in `p++`, `skip` does a `p++` of its own before, `error` is
-- `return ERROR`. In C the behaviour is undefined after `undefined`; `out_of_fuel` is the model's.
pub data Round (j : Judy) (m : Memory) : Type 0 where
  advance : Config j m → Locals → Round j m
  skip : Config j m → Locals → Round j m
  error : Config j m → Round j m
  undefined : Round j m
  out_of_fuel : Round j m

-- What a load returns, with the configuration that it leaves.
pub data Loaded (j : Judy) (m : Memory) : Type 0 where
  ok : Config j m → Loaded j m
  err : Config j m → Loaded j m
  undefined : Loaded j m
  out_of_fuel : Loaded j m
