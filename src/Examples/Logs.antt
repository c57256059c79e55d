-- ===== src/Examples/Logs.antt =====
-- The storage and the random numbers on the examples.
use rust_kv.Base.{ℕ, ◌≡◌, refl, none, some, [], ◌∷◌, arith}
use rust_kv.Outcome.{Returns}
use rust_kv.Rng
use rust_kv.Rng.{SplitMix64, next_u64, next_range}
use rust_kv.Rng.Range.{InRange, next_range_bounds}
use rust_kv.Types.{Snapshot}
use rust_kv.Storage.{
  expect, append, truncate_from, compact_to, install_snapshot, last_index, snapshot_index,
}
use rust_kv.Storage.Contiguous.{IsContiguous}
use rust_kv.Storage.Compaction.{Installed, install-Installed}
use rust_kv.Storage.Log.{
  Extends, append-Extends, truncate_from-Extends, Compacts, compact_to-Compacts,
}
use rust_kv.Examples.Data.{members, entry_at, storage}

next_u64-zero : (next_u64 (Rng.new 0)).0 ≡ 0xE220A8397B1DCDAF
unfolding next_u64 Rng.new
next_u64-zero = refl

next_range_bounds_example :
    Returns (InRange 150000 300000) (next_range (record { state = 1 }) 150000 300000)
next_range_bounds_example =
    next_range_bounds (record { state = 1 }) 150000 300000 (omega arith) (omega arith)

pub storage-IsContiguous : IsContiguous storage
unfolding snapshot_index
storage-IsContiguous = (refl, (refl, (refl, tt)))

append-Extends_example :
    Returns
      (Extends storage (last_index storage) (entry_at 3 6 ∷ []))
      (expect (append (entry_at 3 6 ∷ []) storage))
unfolding last_index snapshot_index
append-Extends_example = append-Extends storage (entry_at 3 6 ∷ []) storage-IsContiguous (refl, tt)

truncate_from-Extends_example : Returns (Extends storage 3 []) (expect (truncate_from 4 storage))
unfolding last_index snapshot_index
truncate_from-Extends_example =
    truncate_from-Extends storage 4 storage-IsContiguous (omega arith) (omega arith)

compact_to-Compacts_example :
    Returns (Compacts storage 4) (expect (compact_to 4 4 (some members) storage))
unfolding last_index snapshot_index
compact_to-Compacts_example =
    compact_to-Compacts storage 4 4 (some members) storage-IsContiguous (omega arith) (omega arith)

abbrev snapshot : Snapshot ℕ
snapshot = record { last_included_index = 4; last_included_term = 2; membership = none; state = 4 }

install-Installed_example :
    Returns (Installed snapshot storage) (expect (install_snapshot snapshot storage))
unfolding snapshot_index
install-Installed_example = install-Installed storage snapshot storage-IsContiguous (omega arith)
