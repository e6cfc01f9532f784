-- ===== src/Api/Meta/Maps.antt =====
-- Reading a map after a write.
use reactivejob_operator.Prelude.{
  String, ◌≡◌, refl, some, false, [], ◌∷◌, str_eq, eq_iff, eq_refl, arith, if◌then◌else◌,
}
use reactivejob_operator.Api.Meta.{Entries, lookup, insert, map_get}

pub lookup-insert :
    (written read value : String) (entries : Entries)
    → lookup read (insert written value entries)
      ≡ (if str_eq written read then some value else lookup read entries)
unfolding lookup insert
lookup-insert written read value [] = refl
lookup-insert written read value ((key, old) ∷ entries) =
    let rest = lookup-insert written read value entries in
    ground (arith, eq_iff written read, eq_iff key written, eq_iff key read, rest)

pub map_get-insert_self : (k v : String) (m : Entries) → map_get (some (insert k v m)) k ≡ v
map_get-insert_self k v m = rw (lookup-insert, eq_refl)

pub map_get-insert_ne :
    (k j v : String) (m : Entries)
    → str_eq k j ≡ false
    → map_get (some (insert k v m)) j ≡ map_get (some m) j
map_get-insert_ne k j v m h = rw (lookup-insert, h)
