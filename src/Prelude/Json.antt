-- ===== src/Prelude/Json.antt =====
-- What `json.loads` returns, as the program handles it: a dict keeps its insertion order, an int is
-- unbounded, and a finite float is the exact value m / 2^k that it stands for. `NaN`, `Infinity` and
-- `-Infinity`, which `json.loads` reads as well, are values of their own.
use Prim.Native.Nat.{ℕ}
use Prim.Native.String.{String}
use mathlib.Core.Bool.{Bool, true, false}
use mathlib.Core.Option.{Option, none, some}
use mathlib.Core.Path.{◌≡◌, refl}
use native.Mathlib.Omega.{arith}
use text.Mathlib.Text.{◌==◌}
use text.Mathlib.TextEquality.{eq_iff}
use lucid_agent_core.Prelude.Tests.{if◌then◌else◌}
use lucid_agent_core.Prelude.Int.{ℤ}

pub data Special : Type 0 where
  nan infinity minus_infinity : Special

-- A float: m / 2^k, or one that is not finite.
pub data Float : Type 0 where
  finite : ℤ → ℕ → Float
  nonfinite : Special → Float

mutual
  pub data Value : Type 0 where
    null : Value
    bool : Bool → Value
    int : ℤ → Value
    float : ℤ → ℕ → Value
    special : Special → Value
    str : String → Value
    list : Items → Value
    dict : Fields → Value

  pub data Items : Type 0 where
    nil : Items
    cons : Value → Items → Items

  pub data Fields : Type 0 where
    end : Fields
    field : String → Value → Fields → Fields

-- `d.get(k)`
unfoldable pub get : String → Fields → Option Value
get k end = none
get k (field j v d) = if j == k then some v else get k d

-- `k in d`
unfoldable pub has : String → Fields → Bool
has k end = false
has k (field j v d) = if j == k then true else has k d

-- `d[k] = v`
unfoldable pub put : String → Value → Fields → Fields
put k v end = field k v end
put k v (field j w d) = if j == k then field j v d else field j w (put k v d)

-- `{**a, **b}`
unfoldable pub merge : Fields → Fields → Fields
merge a end = a
merge a (field k v b) = merge (put k v a) b

-- The keys of a decoded object are distinct.
abbrev pub NodupFields : Fields → Type 0
NodupFields end = Unit
NodupFields (field k v d) = (has k d ≡ false) × NodupFields d

pub get-put :
    (k j : String) (v : Value) (d : Fields)
    → get j (put k v d) ≡ (if k == j then some v else get j d)
unfolding get put
get-put k j v end = refl
get-put k j v (field i w d) = ground (arith, eq_iff k j, eq_iff i k, eq_iff i j, get-put k j v d)

pub has-put :
    (k j : String) (v : Value) (d : Fields) → has j (put k v d) ≡ (if k == j then true else has j d)
unfolding has put
has-put k j v end = refl
has-put k j v (field i w d) = ground (arith, eq_iff k j, eq_iff i k, eq_iff i j, has-put k j v d)

pub put-NodupFields :
    (k : String) (v : Value) (d : Fields) → NodupFields d → NodupFields (put k v d)
unfolding has put
put-NodupFields k v end h = (refl, tt)
put-NodupFields k v (field i w d) h =
    ground (arith, eq_iff i k, eq_iff k i, has-put k i v d, put-NodupFields k v d h.1)

-- What is absent has no value.
pub has_of_get : (k : String) (d : Fields) (v : Value) → get k d ≡ some v → has k d ≡ true
unfolding get has
has_of_get k end v h = cc
has_of_get k (field j w d) v h = ground (arith, has_of_get k d v)

pub get-eq-none_of_has : (k : String) (d : Fields) → has k d ≡ false → get k d ≡ none
unfolding get has
get-eq-none_of_has k end h = refl
get-eq-none_of_has k (field j w d) h = ground (arith, get-eq-none_of_has k d)
