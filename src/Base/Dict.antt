-- ===== src/Base/Dict.antt =====
-- Python's `dict` with string keys, as an association list in the order of insertion, and what
-- each update does to its keys, its size and its reads.
use Prim.Native.Nat.{◌+◌, ◌≤◌}
use Prim.Native.String.{String}
use mathlib.Core.Path.{◌≡◌, refl}
use mathlib.Core.Bool.{true, false, ◌||◌}
use mathlib.Core.Option.{Option, none, some}
use mathlib.Core.List.{List, [], ◌∷◌}
use native.Mathlib.Omega.{arith}
use text.Mathlib.Text.{◌==◌ as str_eq}
use text.Mathlib.TextEquality.{eq_iff}
use relay_agent.Base.Tests.{if◌then◌else◌, is_some}
use relay_agent.Base.Lists.{member, length}

abbrev pub Dict {ℓ} : Type ℓ → Type ℓ
Dict V = List (String × V)

-- What an assignment and a removal do to the keys.
unfoldable pub put_key : String → List String → List String
put_key k [] = k ∷ []
put_key k (j ∷ js) = if str_eq j k then j ∷ js else j ∷ put_key k js

unfoldable pub pop_key : String → List String → List String
pop_key k [] = []
pop_key k (j ∷ js) = if str_eq j k then js else j ∷ pop_key k js

-- No key is listed twice.
abbrev pub AreDistinct : List String → Type 0
AreDistinct [] = Unit
AreDistinct (j ∷ js) = (member j js ≡ false) × AreDistinct js

pub member-put_key :
    (k j : String) (js : List String) → member j (put_key k js) ≡ (str_eq k j || member j js)
unfolding member put_key
member-put_key k j [] = refl
member-put_key k j (i ∷ js) =
    ground (arith, eq_iff k j, eq_iff i k, eq_iff i j, member-put_key k j js)

pub member-pop_key_ne :
    (k j : String) (js : List String) → str_eq k j ≡ false → member j (pop_key k js) ≡ member j js
unfolding member pop_key
member-pop_key_ne k j [] h = refl
member-pop_key_ne k j (i ∷ js) h =
    ground (arith, eq_iff k j, eq_iff i k, eq_iff i j, member-pop_key_ne k j js h)

pub member-pop_key_of :
    (k j : String) (js : List String) → member j js ≡ false → member j (pop_key k js) ≡ false
unfolding member pop_key
member-pop_key_of k j [] h = h
member-pop_key_of k j (i ∷ js) h = ground (arith, member-pop_key_of k j js)

pub member-pop_key_self :
    (k : String) (js : List String) → AreDistinct js → member k (pop_key k js) ≡ false
unfolding member pop_key
member-pop_key_self k [] h = refl
member-pop_key_self k (i ∷ js) h = ground (arith, eq_iff i k, member-pop_key_self k js h.1)

pub put_key-AreDistinct :
    (k : String) (js : List String) → AreDistinct js → AreDistinct (put_key k js)
unfolding member put_key
put_key-AreDistinct k [] h = (refl, tt)
put_key-AreDistinct k (i ∷ js) h =
    ground (arith, eq_iff i k, eq_iff k i, put_key-AreDistinct k js h.1, member-put_key k i js)

pub pop_key-AreDistinct :
    (k : String) (js : List String) → AreDistinct js → AreDistinct (pop_key k js)
unfolding member pop_key
pop_key-AreDistinct k [] h = tt
pop_key-AreDistinct k (i ∷ js) h =
    ground (arith, pop_key-AreDistinct k js h.1, member-pop_key_of k i js)

-- An assignment to a key that is there leaves the keys alone.
pub put_key_old : (k : String) (js : List String) → member k js ≡ true → put_key k js ≡ js
unfolding member put_key
put_key_old k [] h = ground arith
put_key_old k (i ∷ js) h = ground (arith, put_key_old k js)

module _ {ℓ} {V : Type ℓ} where
  -- d.get(k)
  unfoldable pub get : String → Dict V → Option V
  get k [] = none
  get k ((j, v) ∷ d) = if str_eq j k then some v else get k d

  -- d[k] = v: an old key keeps its place
  unfoldable pub put : String → V → Dict V → Dict V
  put k v [] = (k, v) ∷ []
  put k v ((j, w) ∷ d) = if str_eq j k then (j, v) ∷ d else (j, w) ∷ put k v d

  -- d.pop(k, None)
  unfoldable pub pop : String → Dict V → Dict V
  pop k [] = []
  pop k ((j, w) ∷ d) = if str_eq j k then d else (j, w) ∷ pop k d

  abbrev pub keys : Dict V → List String
  keys [] = []
  keys ((j, _) ∷ d) = j ∷ keys d

  pub get-put :
      (k j : String) (v : V) (d : Dict V)
      → get j (put k v d) ≡ (if str_eq k j then some v else get j d)
  unfolding get put
  get-put k j v [] = refl
  get-put k j v ((i, w) ∷ d) = ground (arith, eq_iff k j, eq_iff i k, eq_iff i j, get-put k j v d)

  pub get-pop_ne : (k j : String) (d : Dict V) → str_eq k j ≡ false → get j (pop k d) ≡ get j d
  unfolding get pop
  get-pop_ne k j [] h = refl
  get-pop_ne k j ((i, w) ∷ d) h =
      ground (arith, eq_iff k j, eq_iff i k, eq_iff i j, get-pop_ne k j d h)

  pub get-keys : (k : String) (d : Dict V) → is_some (get k d) ≡ member k (keys d)
  unfolding get member
  get-keys k [] = refl
  get-keys k ((j, v) ∷ d) = ground (arith, get-keys k d)

  pub keys-put : (k : String) (v : V) (d : Dict V) → keys (put k v d) ≡ put_key k (keys d)
  unfolding put put_key
  keys-put k v [] = refl
  keys-put k v ((j, w) ∷ d) = ground (arith, keys-put k v d)

  pub keys-pop : (k : String) (d : Dict V) → keys (pop k d) ≡ pop_key k (keys d)
  unfolding pop pop_key
  keys-pop k [] = refl
  keys-pop k ((j, w) ∷ d) = ground (arith, keys-pop k d)

  pub length-keys : (d : Dict V) → length (keys d) ≡ length d
  length-keys [] = refl
  length-keys ((j, w) ∷ d) = omega (arith, length-keys d)

  pub length-put_new :
      (k : String) (v : V) (d : Dict V) → get k d ≡ none → length (put k v d) ≡ length d + 1
  unfolding get put
  length-put_new k v [] h = omega arith
  length-put_new k v ((i, w) ∷ d) h = ground (arith, length-put_new k v d)

  pub length-pop-le : (k : String) (d : Dict V) → length (pop k d) ≤ length d
  unfolding pop
  length-pop-le k [] = omega arith
  length-pop-le k ((i, w) ∷ d) = ground (arith, length-pop-le k d)
