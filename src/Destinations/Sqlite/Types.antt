-- ===== src/Destinations/Sqlite/Types.antt =====
-- The types of columns in SQLite.
use cloudquery_fork4devin.Base.{◌≡◌, refl, some}
use cloudquery_fork4devin.Destinations.Sdk.{
  TypeId, Sdk, SdkLaws, binary, large_binary, int8, int16, int32, int64, uint8, uint16, uint32,
  uint64, float16, float32, float64, bool, timestamp, string, large_string, other_id,
}
use cloudquery_fork4devin.Destinations.Sqlite.{
  id_to_sqlite, id_to_sqlite_str, arrow_type_to_sqlite, arrow_type_to_sqlite_str,
  sqlite_type_to_arrow_type,
}

module _ (k : Sdk) (laws : SdkLaws k) where
  abbrev Reads : TypeId → Type 0
  Reads i =
      sqlite_type_to_arrow_type k (id_to_sqlite_str (k.id (id_to_sqlite k i)))
      ≡ some (id_to_sqlite k i)

  integers : Reads int64
  unfolding sqlite_type_to_arrow_type
  integers = rw laws.id-int64 refl

  reals : Reads float64
  unfolding sqlite_type_to_arrow_type
  reals = rw laws.id-float64 refl

  booleans : Reads bool
  unfolding sqlite_type_to_arrow_type
  booleans = rw laws.id-boolean refl

  timestamps : Reads timestamp
  unfolding sqlite_type_to_arrow_type
  timestamps = rw laws.id-timestamp_us refl

  texts : Reads string
  unfolding sqlite_type_to_arrow_type
  texts = rw laws.id-large_string refl

  reads : (i : TypeId) → Reads i
  reads binary = texts
  reads large_binary = texts
  reads int8 = integers
  reads int16 = integers
  reads int32 = integers
  reads int64 = integers
  reads uint8 = integers
  reads uint16 = integers
  reads uint32 = integers
  reads uint64 = integers
  reads float16 = reals
  reads float32 = reals
  reads float64 = reals
  reads bool = booleans
  reads timestamp = timestamps
  reads string = texts
  reads large_string = texts
  reads other_id = texts

  -- The type of a column in the database that is created for a normalized type is read back as that
  -- type, without the panic, so that a migration does not see the types of its own tables as changed.
  pub sqlite_type_to_arrow_type-arrow_type_to_sqlite_str :
      (t : k.DataType)
      → sqlite_type_to_arrow_type k (arrow_type_to_sqlite_str k (arrow_type_to_sqlite k t))
        ≡ some (arrow_type_to_sqlite k t)
  unfolding arrow_type_to_sqlite arrow_type_to_sqlite_str
  sqlite_type_to_arrow_type-arrow_type_to_sqlite_str t = reads (k.id t)
