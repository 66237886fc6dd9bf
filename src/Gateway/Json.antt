-- ===== src/Gateway/Json.antt =====
-- JSON values as `json.loads` returns them, and what the handlers ask of them.
use relay_agent.Base.{
  Bool, Option, String, false, if◌then◌else◌, ltb, none, not, some, str_eq, true,
}
use relay_agent.Base.Int.{negsuc, pos, ℤ}

mutual
  pub data Value : Type 0 where
    null : Value
    boolean : Bool → Value
    integer : ℤ → Value
    text : String → Value
    array : Values → Value
    object : Fields → Value

  pub data Values : Type 0 where
    nil : Values
    cons : Value → Values → Values

  pub data Fields : Type 0 where
    end : Fields
    field : String → Value → Fields → Fields

-- `d.get(key)`: a later duplicate has replaced an earlier one when the object was read, so keys
-- are taken to be distinct.
unfoldable pub lookup : String → Fields → Option Value
lookup k end = none
lookup k (field j v fs) = if str_eq j k then some v else lookup k fs

-- `d.get(key, default)`
unfoldable pub lookup_or : String → Value → Fields → Value
unfolding lookup
lookup_or k default fs = elim (lookup k fs) [ none ↦ default | some v ↦ v ]

-- `bool(v)`
unfoldable pub is_truthy : Value → Bool
is_truthy null = false
is_truthy (boolean b) = b
is_truthy (integer (pos n)) = ltb 0 n
is_truthy (integer (negsuc n)) = true
is_truthy (text t) = not (str_eq t "")
is_truthy (array nil) = false
is_truthy (array (cons _ _)) = true
is_truthy (object end) = false
is_truthy (object (field _ _ _)) = true

-- `v or default`
unfoldable pub or_else : Value → Value → Value
unfolding is_truthy
or_else v default = if is_truthy v then v else default

-- Lists and dictionaries cannot be keys: `d.get(v)` and `v in {…}` raise TypeError.
unfoldable pub is_hashable : Value → Bool
is_hashable (array _) = false
is_hashable (object _) = false
is_hashable _ = true

-- `v == "…"` and `v in {…}` against texts.
unfoldable pub is_text : String → Value → Bool
is_text t (text u) = str_eq u t
is_text t _ = false
