-- ===== src/Storage/Open.antt =====
-- storage/fjall_engine.rs: `open_handles`, and the calls of fjall and of the file system that it makes.
use tonggeret.Base.{
  ℕ, ◌*◌, ◌^◌, ◌<◌, ◌≡◌, Bool, true, Option, none, some, min, if◌then◌else◌, codes, arith,
}
use tonggeret.Text.{Str}
use tonggeret.Text.Hex.{max_u64}
use tonggeret.Error.{Result, ok, err, storage, io}
use tonggeret.FilePath.{FilePath}
use tonggeret.Config.{FjallConfig, cold_dir}

-- the options of the keyspace
pub record KeyspaceOptions : Type 0 where
  pub dir : FilePath
  pub cache_size : ℕ
  pub max_write_buffer_size : ℕ

-- what `open_handles` uses of fjall and of the file system, as they come out in one call
pub record Opening (Keyspace Store : Type 0) : Type 0 where
  pub create_dir_all : FilePath → Bool
  pub open_keyspace : KeyspaceOptions → Option Keyspace
  -- the partition of a name, with `max_memtable_size`
  pub open_partition : Str → ℕ → Keyspace → Option Store

-- `saturating_mul` on a `u64`
abbrev pub saturating_mul : ℕ → ℕ → ℕ
saturating_mul a b = min (a * b) max_u64

unfoldable pub keyspace_options : FjallConfig → KeyspaceOptions
keyspace_options c = record {
  dir = c.dir;
  cache_size = c.cache_size_bytes;
  max_write_buffer_size = saturating_mul c.memtable_bytes 2;
}

-- `PARTITION_METRICS`
abbrev pub partition_metrics : Str
partition_metrics = codes "metrics"

module _ {Keyspace Store : Type 0} (opening : Opening Keyspace Store) where
  open opening use {create_dir_all, open_keyspace, open_partition}

  abbrev partition_of : Option Store → Result Store
  partition_of none = err (storage (codes "fjall open partition"))
  partition_of (some s) = ok s

  abbrev keyspace_of : FjallConfig → Option Keyspace → Result Store
  keyspace_of c none = err (storage (codes "fjall open"))
  keyspace_of c (some keyspace) =
      partition_of (open_partition partition_metrics c.memtable_bytes keyspace)

  -- `open_handles`, by its partition
  unfoldable pub open_handles : FjallConfig → Result Store
  unfolding cold_dir keyspace_options
  open_handles c =
      if create_dir_all c.dir
      then (if create_dir_all (cold_dir c)
          then keyspace_of c (open_keyspace (keyspace_options c))
          else err (io (codes "create_dir_all")))
      else err (io (codes "create_dir_all"))

  -- For a memtable size of a `u32`, the write buffer is twice the memtable, with nothing cut off, and
  -- `open_handles` gives the partition if both directories, the keyspace and the partition are opened.
  pub open_handles-opens :
      (c : FjallConfig) (keyspace : Keyspace) (s : Store)
      → c.memtable_bytes < 2 ^ 32
      → create_dir_all c.dir ≡ true
      → create_dir_all (cold_dir c) ≡ true
      → open_keyspace (keyspace_options c) ≡ some keyspace
      → open_partition partition_metrics c.memtable_bytes keyspace ≡ some s
      → (open_handles c ≡ ok s)
        × ((keyspace_options c).max_write_buffer_size ≡ 2 * c.memtable_bytes)
  unfolding open_handles keyspace_options
  open_handles-opens c keyspace s small made made_cold opened there =
      (rw (made, made_cold, opened, there), ground (arith, small))
