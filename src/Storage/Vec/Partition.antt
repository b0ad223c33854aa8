-- ===== src/Storage/Vec/Partition.antt =====
-- `StoragePartition` of `src/storage/vec.rs`: a part of a vector storage from an offset on.
pub mod Split
use dynec.Common.{
  ℕ, ◌+◌, ◌-◌, Bool, Option, none, some, List, [], ltb, if◌then◌else◌, Outcome, ok, panic, Panic,
  ◌>>=◌, length, get_elem?, take, drop,
}
use dynec.Storage.Vec.{is_set, read_at}

pub record StoragePartition {ℓ} (A : Type ℓ) : Type ℓ where
  pub offset : ℕ
  pub bits : List Bool
  pub data_cells : List (Option A)

module _ {ℓ} {A : Type ℓ} where
  -- The element that the reference of `into_mut` points to.
  unfoldable pub into_mut : StoragePartition A → ℕ → Outcome (Option A)
  unfolding read_at
  into_mut p entity =
      if ltb entity p.offset
      then panic Panic.out_of_partition
      else if is_set (get_elem? p.bits (entity - p.offset))
      then (read_at p.data_cells (entity - p.offset) >>= λ a. ok (some a))
      else ok none

  -- `split_out`: what is left of the partition, and the new one.
  unfoldable pub split_out :
      StoragePartition A → ℕ → Outcome (StoragePartition A × StoragePartition A)
  split_out p entity =
      let index = entity - p.offset in
      if ltb entity p.offset
      then panic Panic.index_out_of_bounds
      else if ltb (length p.bits) index
      then ok (p, record { offset = p.offset + index; bits = []; data_cells = [] })
      else if ltb (length p.data_cells) index
      then panic Panic.take_out_of_bounds
      else ok (
        record p { bits = take index p.bits; data_cells = take index p.data_cells },
        record {
          offset = p.offset + index;
          bits = drop index p.bits;
          data_cells = drop index p.data_cells;
        },
      )
