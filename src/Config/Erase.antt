-- ===== src/Config/Erase.antt =====
-- A configuration of src/config.c without its heap: unless something is refused, a load does to the
-- array what it does over a heap that is nothing.
pub mod Parse
pub mod Whole
use libhelp.Base.{ℕ, ◌≡◌, true, Option, none, some, Bytes}
use libhelp.Config.Insert.{Stored, stored, failed}
use libhelp.Config.Judy.{Judy, Memory}
use libhelp.Config.Types.{Config, Locals, Round, advance, skip, error, Loaded, ok, err}

-- a heap that is nothing, and has room for everything
abbrev pub plain : Memory
plain = record {
  Heap = Unit;
  alloc = λ h n. (some 0, h);
  realloc = λ h p n. (some p, h);
  free = λ h p. h;
  pool_new = λ h size rmd. (true, h);
  pool_calloc = λ h. (true, h);
  pool_delete = λ h. h;
  cpy = λ h s. (true, h);
}

abbrev pub erase_conf : Option (ℕ × Bytes) → Option (ℕ × Bytes)
erase_conf none = none
erase_conf (some (p, text)) = some (0, text)

module _ {j : Judy} {m : Memory} where
  abbrev pub erase : Config j m → Config j plain
  erase cfg = record {
    entries = cfg.entries;
    heap = tt;
    src = 0;
    line_error = cfg.line_error;
    conf = erase_conf cfg.conf;
  }

  -- A failure, or what happens over no heap.
  abbrev pub StoredAlike : Stored j m → Stored j plain → Type 0
  StoredAlike (stored cfg) r = stored (erase cfg) ≡ r
  StoredAlike (failed cfg) r = Unit
  StoredAlike Stored.undefined r = Stored.undefined ≡ r
  StoredAlike Stored.out_of_fuel r = Stored.out_of_fuel ≡ r

  abbrev pub RoundAlike : Round j m → Round j plain → Type 0
  RoundAlike (advance cfg l) r = advance (erase cfg) l ≡ r
  RoundAlike (skip cfg l) r = skip (erase cfg) l ≡ r
  RoundAlike (error cfg) r = Unit
  RoundAlike Round.undefined r = Round.undefined ≡ r
  RoundAlike Round.out_of_fuel r = Round.out_of_fuel ≡ r

  abbrev pub LoadedAlike : Loaded j m → Loaded j plain → Type 0
  LoadedAlike (ok cfg) r = ok (erase cfg) ≡ r
  LoadedAlike (err cfg) r = Unit
  LoadedAlike Loaded.undefined r = Loaded.undefined ≡ r
  LoadedAlike Loaded.out_of_fuel r = Loaded.out_of_fuel ≡ r
