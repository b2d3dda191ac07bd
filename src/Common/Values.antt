-- ===== src/Common/Values.antt =====
-- JSON values as `JSON.parse` builds them, and the tests that the source makes on them. A finite
-- double is `± magnitude / 2 ^ shift`; an object is its own entries in the order of
-- `Object.entries`.
use Prim.Native.Nat.{ℕ, ◌*◌, ◌/◌, ◌%◌, ◌^◌}
use mathlib.Core.Bool.{Bool, true, false, not, ◌&&◌, ◌||◌}
use mathlib.Core.Option.{Option, none, some}
use mathlib.Core.List.{List, [], ◌∷◌}
use frankai_online.Common.Tests.{ltb, ◌==◌, if◌then◌else◌}
use frankai_online.Common.Lists.{is_empty}
use frankai_online.Common.Text.{Str, ◌===◌}

pub record Number : Type 0 where
  pub negative : Bool
  pub magnitude : ℕ
  pub shift : ℕ

mutual
  pub data Json : Type 0 where
    null : Json
    bool : Bool → Json
    num : Number → Json
    str : Str → Json
    arr : Items → Json
    obj : Fields → Json

  pub data Items : Type 0 where
    nil : Items
    cons : Json → Items → Items

  pub data Fields : Type 0 where
    end : Fields
    field : Str → Json → Fields → Fields

abbrev pub items : Items → List Json
items nil = []
items (cons v vs) = v ∷ items vs

abbrev pub fields : Fields → List (Str × Json)
fields end = []
fields (field k v fs) = (k, v) ∷ fields fs

abbrev pub of_items : List Json → Items
of_items [] = nil
of_items (v ∷ vs) = cons v (of_items vs)

abbrev pub of_fields : List (Str × Json) → Fields
of_fields [] = end
of_fields ((k, v) ∷ fs) = field k v (of_fields fs)

-- `value[key]`; `none` is `undefined`
unfoldable pub get : Fields → Str → Option Json
get end key = none
get (field k v fs) key = if k === key then some v else get fs key

-- `Number.isInteger(n)`
unfoldable pub is_integer : Number → Bool
is_integer n = n.magnitude % 2 ^ n.shift == 0

-- `n < k` and `n > k` for a natural number `k` above 0
unfoldable pub num_below : Number → ℕ → Bool
num_below n k = n.negative || ltb n.magnitude (k * 2 ^ n.shift)

unfoldable pub num_above : Number → ℕ → Bool
num_above n k = not n.negative && ltb (k * 2 ^ n.shift) n.magnitude

-- The natural number that an integer which is not negative stands for.
unfoldable pub num_value : Number → ℕ
num_value n = n.magnitude / 2 ^ n.shift

abbrev pub whole : ℕ → Json
whole n = num (record { negative = false; magnitude = n; shift = 0 })

-- `Boolean(v)`
unfoldable pub truthy : Json → Bool
truthy null = false
truthy (bool b) = b
truthy (num n) = not (n.magnitude == 0)
truthy (str s) = not (is_empty s)
truthy (arr vs) = true
truthy (obj fs) = true
