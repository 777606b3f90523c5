-- ===== src/Config/Puts.antt =====
-- What an insertion of src/config.c does to the array, when there is room.
use libhelp.Base.{◌≡◌, refl, some, Bytes, arith, bytes_eq, bytes_eq_refl, if◌then◌else◌}
use libhelp.Config.Insert.{stored, fill_slot, insert}
use libhelp.Config.Judy.{Word, Judy, IsMap, Memory, IsPlentiful}
use libhelp.Config.Types.{Config}

pub get-store-ins :
    {j : Judy} (map : IsMap j) (a b : j.Arr) (k i : Bytes) (w : Word)
    → j.ins a k ≡ some b
    → j.get (j.store b k w) i ≡ (if bytes_eq k i then some w else j.get a i)
get-store-ins {j} map a b k i w e =
    ground
      (arith, map.get-store b k i w, map.get-ins a b k k e, map.get-ins a b k i e, bytes_eq_refl k)

module _ {j : Judy} {m : Memory} where
  -- the words of all keys after a key is given a string
  pub record Sets (cfg : Config j m) (key value : Bytes) (cfg' : Config j m) : Type 0 where
    pub words :
        (i : Bytes)
        → j.get cfg'.entries i ≡ (if bytes_eq key i then some (some value) else j.get cfg.entries i)
    pub line_error : cfg'.line_error ≡ cfg.line_error
    pub conf : cfg'.conf ≡ cfg.conf

  module _ (map : IsMap j) where
    pub insert-Sets :
        (room : IsPlentiful j m) (cfg : Config j m) (key value : Bytes)
        → (cfg' : Config j m) × (insert cfg key (some value) ≡ stored cfg')
          × Sets cfg key value cfg'
    unfolding insert fill_slot
    insert-Sets room cfg key value =
        let (b, e) = room.ins_some cfg.entries key in
        (
          record cfg { entries = j.store b key (some value); heap = (m.cpy cfg.heap value).1 },
          rw (e, insert) (rw (room.cpy_true cfg.heap value, fill_slot) refl),
          record {
            words = λ i. get-store-ins map cfg.entries b key i (some value) e;
            line_error = refl;
            conf = refl;
          },
        )
