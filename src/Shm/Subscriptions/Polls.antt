-- ===== src/Shm/Subscriptions/Polls.antt =====
-- What a poll of the subscriptions gives to dev_handler, and what the next one is left with.
use c_runtime.Prelude.{ℕ, zero, suc, ◌+◌, ◌≤◌, ◌<◌, ◌^◌, ◌≡◌, ◌≢◌, arith}
use c_runtime.Prelude.{◌&&◌, ◌||◌, not, ◌==◌, if◌then◌else◌, ltb, leb, update}
use c_runtime.Prelude.{bit_and, bit_or, not32}
use c_runtime.Prelude.Bits.{has_bit, has_bit-clear, has_bit-or}
use c_runtime.RuntimeUtil.Types.{Process, dev_handler}
use c_runtime.Shm.Types.{DevShm, Shm}
use c_runtime.Shm.Subscriptions.{sub_entry, fill_sub_map, get_sub_requests}

pub fill_sub_map_entry :
    (process : Process) (d : DevShm) (left i : ℕ) (sub_map : ℕ → ℕ) (j : ℕ)
    → fill_sub_map process d left i sub_map (j + 1) ≡ (
        if leb i j && ltb j (i + left)
        then (if has_bit d.catalog j then sub_entry process d (j + 1) else 0)
        else sub_map (j + 1))
unfolding fill_sub_map
fill_sub_map_entry process d zero i sub_map j = ground arith
fill_sub_map_entry process d (suc left) i sub_map j = ground (
  arith,
  fill_sub_map_entry process d left (i + 1) (update sub_map (i + 1) (sub_entry process d (i + 1)))
      j,
  fill_sub_map_entry process d left (i + 1)
      (update (update sub_map 0 (bit_and (sub_map 0) (not32 (2 ^ i)))) (i + 1) 0) j,
)

fill_sub_map_flags :
    (process : Process) (d : DevShm) (left i : ℕ) (sub_map : ℕ → ℕ) (j : ℕ)
    → i + left ≤ 32
    → j < 32
    → has_bit (fill_sub_map process d left i sub_map 0) j
      ≡ (has_bit (sub_map 0) j && (has_bit d.catalog j || not (leb i j && ltb j (i + left))))
unfolding fill_sub_map
fill_sub_map_flags process d zero i sub_map j h k = ground arith
fill_sub_map_flags process d (suc left) i sub_map j h k = ground (
  arith,
  has_bit-clear j i (sub_map 0) k,
  fill_sub_map_flags process d left (i + 1) (update sub_map (i + 1) (sub_entry process d (i + 1)))
      j,
  fill_sub_map_flags process d left (i + 1)
      (update (update sub_map 0 (bit_and (sub_map 0) (not32 (2 ^ i)))) (i + 1) 0) j,
)

-- A poll of dev_handler, where any of the two maps flags a change, gives for each connected
-- device the union of what net_handler and executor subscribe to, and flags the devices that are
-- connected and were flagged in either map. Every entry of a place with no device is 0.
pub get_sub_requests_entries :
    (sub_map : ℕ → ℕ) (m : Shm) (j : ℕ)
    → j < 32
    → bit_or (m.dev.net_sub_map 0) (m.dev.exec_sub_map 0) ≢ 0
    → let r = (get_sub_requests dev_handler sub_map m).1 in
      (r (j + 1) ≡ (
        if has_bit m.dev.catalog j
        then bit_or (m.dev.net_sub_map (j + 1)) (m.dev.exec_sub_map (j + 1))
        else 0))
      × (has_bit (r 0) j ≡ (
          (has_bit (m.dev.net_sub_map 0) j || has_bit (m.dev.exec_sub_map 0) j)
          && has_bit m.dev.catalog j))
unfolding get_sub_requests
get_sub_requests_entries sub_map m j h ne =
    let flags : ℕ = bit_or (m.dev.net_sub_map 0) (m.dev.exec_sub_map 0) in
    (
      ground (arith, fill_sub_map_entry dev_handler m.dev 32 0 (update sub_map 0 flags) j),
      ground (
        arith,
        fill_sub_map_flags dev_handler m.dev 32 0 (update sub_map 0 flags) j,
        has_bit-or j (m.dev.net_sub_map 0) (m.dev.exec_sub_map 0),
      ),
    )

-- Each poll of dev_handler takes the requests of every device: until another request is placed,
-- the next poll, by the thread of whichever device, finds no flag and fills in no entry but the
-- first.
pub get_sub_requests_once :
    (first next : ℕ → ℕ) (m : Shm) (j : ℕ)
    → let m' = (get_sub_requests dev_handler first m).0 in
      (get_sub_requests dev_handler next m').1 j ≡ (if 0 == j then 0 else next j)
unfolding get_sub_requests
get_sub_requests_once first next m j = ground arith
