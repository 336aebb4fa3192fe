-- ===== src/Common/Json.antt =====
-- The values that a payload of the trail holds. `uuid` and `time` stand for the texts that
-- `str(uuid)` and `isoformat()` print: the services never read those texts back.
use Prim.Native.Nat.{ℕ}
use Prim.Native.String.{String}
use mathlib.Core.Bool.{Bool}
use mathlib.Core.List.{List}
use mathlib.Core.Option.{Option, none, some}

mutual
  pub data Json : Type 0 where
    null : Json
    flag : Bool → Json
    number : ℕ → Json
    str : String → Json
    texts : List String → Json
    uuid : ℕ → Json
    time : ℕ → Json
    obj : Fields → Json

  pub data Fields : Type 0 where
    end : Fields
    field : String → Json → Fields → Fields

abbrev pub opt_text : Option String → Json
opt_text none = null
opt_text (some s) = str s

abbrev pub opt_uuid : Option ℕ → Json
opt_uuid none = null
opt_uuid (some n) = uuid n

abbrev pub opt_time : Option ℕ → Json
opt_time none = null
opt_time (some n) = time n
