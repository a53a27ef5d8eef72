-- ===== src/Db.antt =====
-- db/: which values the configured level writes to the database and reads back. LevelDB (vendored) is
-- the map `Disk`, and its own failures are not modelled: a `Put` succeeds, a `Get` fails on a missing
-- key only.
use Prim.Native.Char.{code}
use Prim.Native.String.{String}
use sleepy_hot_stuff.Base.{
  ◌≡◌, refl, ◌⊎◌, inl, inr, Bool, true, false, ◌||◌, Option, none, some, [], ◌∷◌, arith,
  if◌then◌else◌, Bytes, string_eq, bytes_eq, ℤ, pos, ◌≤ℤ◌, leb_ℤ, eq_ℤ,
}
use sleepy_hot_stuff.Utils.Map
use sleepy_hot_stuff.Utils.Map.{Map}

-- The bytes of an ASCII literal.
abbrev pub codes : String → Bytes
codes String.[] = []
codes (String.◌∷◌ c s) = code c ∷ codes s

abbrev pub Disk : Type 0
Disk = Map Bytes Bytes

abbrev pub persist_all : ℤ
persist_all = pos 1

abbrev pub persist_critical : ℤ
persist_critical = pos 2

abbrev pub no_persist : ℤ
no_persist = pos 3

-- The error results of `RecoverValue`.
pub data RecoverError : Type 0 where
  nothing_stored not_critical not_planned not_found : RecoverError

pub data Recovered : Type 0 where
  read : Bytes → Recovered
  failed : RecoverError → Recovered

-- `PersistValue` at the configured level `plevel`. A value that cannot be serialized writes nothing, and
-- ends the process (`write_fails`).
write : Bytes → Option Bytes → Disk → Disk
write key none disk = disk
write key (some ser) disk = Map.insert key ser disk

unfoldable pub persist_value : ℤ → Bytes → Option Bytes → ℤ → Disk → Disk
unfolding write
persist_value plevel key value level disk =
    if leb_ℤ plevel level then write key value disk else disk

is_none : Option Bytes → Bool
is_none none = true
is_none (some b) = false

unfoldable pub write_fails : ℤ → Option Bytes → ℤ → Bool
unfolding is_none
write_fails plevel value level = if leb_ℤ plevel level then is_none value else false

stored : Option Bytes → Recovered
stored none = failed not_found
stored (some b) = read b

unfoldable pub is_critical : Bytes → Bool
is_critical key =
    bytes_eq key (codes "committedBlocks")
    || bytes_eq key (codes "view")
    || bytes_eq key (codes "lockedBlock")

unfoldable pub recover_value : ℤ → Bytes → Disk → Recovered
unfolding stored
recover_value plevel key disk =
    if eq_ℤ plevel no_persist
    then failed nothing_stored
    else (if eq_ℤ plevel persist_critical
        then (if is_critical key then stored (Map.get key disk) else failed not_critical)
        else (if eq_ℤ plevel persist_all then stored (Map.get key disk) else failed not_planned))

-- What a replica needs in order to come back from its disk.
abbrev pub IsNeeded : Bytes → Type 0
IsNeeded key =
    (key ≡ codes "committedBlocks") ⊎ ((key ≡ codes "view") ⊎ (key ≡ codes "lockedBlock"))

needed-is_critical : (key : Bytes) → IsNeeded key → is_critical key ≡ true
unfolding is_critical bytes_eq
needed-is_critical key (inl h) = rw h refl
needed-is_critical key (inr (inl h)) = rw h refl
needed-is_critical key (inr (inr h)) = rw h refl

-- Where the configuration is to persist all values, a value that is written at a persisted level is read
-- back, and where it is to persist the critical ones alone, the committed blocks, the view and the
-- locked block are.
pub recover_value-persist_value :
    (plevel level : ℤ) (key ser : Bytes) (disk : Disk)
    → plevel ≤ℤ level
    → (plevel ≡ persist_all) ⊎ ((plevel ≡ persist_critical) × IsNeeded key)
    → recover_value plevel key (persist_value plevel key (some ser) level disk) ≡ read ser
unfolding recover_value persist_value
recover_value-persist_value plevel level key ser disk h (inl p) =
    ground (arith, Map.get-insert_self key ser disk)
recover_value-persist_value plevel level key ser disk h (inr p) =
    ground (arith, Map.get-insert_self key ser disk, needed-is_critical key p.1)

-- Writing one value leaves the others as they were.
pub recover_value-persist_value_ne :
    (plevel level : ℤ) (key other : Bytes) (value : Option Bytes) (disk : Disk)
    → bytes_eq key other ≡ false
    → recover_value plevel other (persist_value plevel key value level disk)
      ≡ recover_value plevel other disk
unfolding recover_value persist_value
recover_value-persist_value_ne plevel level key other none disk h = ground arith
recover_value-persist_value_ne plevel level key other (some ser) disk h =
    ground (arith, Map.get-insert key other ser disk)
