-- ===== src/Api/Meta.antt =====
-- The parts of Kubernetes object metadata that the operator reads or writes. What it only carries
-- along is a value of the type `E`, the API content that no code of the operator looks into.
pub mod Maps
use reactivejob_operator.Prelude.{
  ℕ, String, Bool, true, false, Option, none, some, List, [], ◌∷◌, str_eq, ◌==◌, if◌then◌else◌,
}
use reactivejob_operator.Prelude.Int.{ℤ}

-- A point of time; 0 is Go's zero time.
abbrev pub Time : Type 0
Time = ℕ

-- `(*metav1.Time).IsZero()`: nil, or the zero time.
abbrev pub is_zero : Option Time → Bool
is_zero none = true
is_zero (some t) = t == 0

-- The entries of a Go `map[string]string`.
abbrev pub Entries : Type 0
Entries = List (String × String)

-- A `map[string]string`; `none` is the nil map.
abbrev pub StringMap : Type 0
StringMap = Option Entries

unfoldable pub lookup : String → Entries → Option String
lookup k [] = none
lookup k ((j, v) ∷ m) = if str_eq j k then some v else lookup k m

-- `m[k] = v` of a map that is not nil.
unfoldable pub insert : String → String → Entries → Entries
insert k v [] = (k, v) ∷ []
insert k v ((j, w) ∷ m) = if str_eq j k then (k, v) ∷ m else (j, w) ∷ insert k v m

abbrev pub or_empty : Option String → String
or_empty none = ""
or_empty (some v) = v

-- `m[k]`: the empty string for a missing key and for the nil map.
abbrev pub map_get : StringMap → String → String
map_get none k = ""
map_get (some m) k = or_empty (lookup k m)

pub record ObjectMeta (E : Type 0) : Type 0 where
  pub name : String
  pub generate_name : String
  pub namespace : String
  pub uid : String
  pub generation : ℤ
  pub deletion_timestamp : Option Time
  pub labels : StringMap
  pub annotations : StringMap
  pub finalizers : List String
  pub rest : E

pub record NamespacedName : Type 0 where
  pub namespace : String
  pub name : String
