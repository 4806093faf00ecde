-- ===== src/Executor/Reset/Koalas.antt =====
-- What reset_params commands: velocity 0 on both motors of every KoalaBear, and nothing else.
use c_runtime.Prelude.{ℕ, zero, suc, ◌+◌, ◌<◌, ◌≤◌, ◌≡◌, refl, arith, inl, inr, not}
use c_runtime.Prelude.{
  Bool, true, false, ◌&&◌, ◌||◌, some, ◌==◌, if◌then◌else◌, ltb, leb, Bool-cases, all_below,
  all_below_sound, bit_or,
}
use c_runtime.Prelude.Bits.{has_bit, has_bit-set}
use c_runtime.RuntimeUtil.Types.{DevId, Process}
use c_runtime.Shm.Types.{DevShm, Shm, data_stream, command_stream}
use c_runtime.Shm.Devices.{get_dev_ix_from_uid, get_catalog, get_device_identifiers}
use c_runtime.Shm.Devices.Places.{HasUniqueUids, unique_place}
use c_runtime.Shm.Params.{device_write_uid, device_write_helper, write_row, flag_command}
use c_runtime.Shm.Params.Commands.{copy_on_lem}
use c_runtime.Executor.Reset.{zero_params, reset_device, reset_loop, reset_params}
use c_runtime.Executor.Reset.Masks.{reset_mask_lem, write_zeros, reset_device-mask}

-- The place has a KoalaBear.
unfoldable pub is_koala_bear : DevShm → ℕ → Bool
is_koala_bear d i = has_bit d.catalog i && (d.dev_ids i).type == 6

-- The KoalaBears at the places from `low` to below `high` are told to stop: their velocities,
-- parameters 0 and 8, are commanded to be 0 and flagged, and nothing else has changed.
pub record IsReset (low high : ℕ) (d d' : DevShm) : Type 0 where
  pub same_catalog : d'.catalog ≡ d.catalog
  pub same_ids : d'.dev_ids ≡ d.dev_ids
  pub same_data : d'.params data_stream ≡ d.params data_stream
  pub same_net : d'.net_sub_map ≡ d.net_sub_map
  pub same_exec : d'.exec_sub_map ≡ d.exec_sub_map
  pub commands :
      (i j : ℕ)
      → j < 32
      → d'.params command_stream i j ≡ (
          if (leb low i && (ltb i high && is_koala_bear d i)) && (j == 0 || j == 8)
          then 0
          else d.params command_stream i j)
  pub flags :
      (i : ℕ)
      → has_bit (d'.cmd_map 0) i
        ≡ (has_bit (d.cmd_map 0) i || (leb low i && (ltb i high && is_koala_bear d i)))
  pub pending :
      (i : ℕ)
      → d'.cmd_map (i + 1) ≡ (
          if leb low i && (ltb i high && is_koala_bear d i)
          then bit_or (d.cmd_map (i + 1)) 257
          else d.cmd_map (i + 1))

IsReset-empty : (low high : ℕ) (d : DevShm) → high ≤ low → IsReset low high d d
IsReset-empty low high d p = record {
  same_catalog = refl;
  same_ids = refl;
  same_data = refl;
  same_net = refl;
  same_exec = refl;
  commands = λ k j h. ground arith;
  flags = λ k. ground arith;
  pending = λ k. ground arith;
}

-- A device that is not a KoalaBear, or is not there, is left alone.
IsReset-skip : (i : ℕ) (d : DevShm) → is_koala_bear d i ≡ false → IsReset i (i + 1) d d
IsReset-skip i d e = record {
  same_catalog = refl;
  same_ids = refl;
  same_data = refl;
  same_net = refl;
  same_exec = refl;
  commands = λ k j h. ground (arith, e);
  flags = λ k. ground (arith, e);
  pending = λ k. ground (arith, e);
}

IsReset-join :
    (low mid high : ℕ) (d d' d'' : DevShm)
    → low ≤ mid
    → mid ≤ high
    → IsReset low mid d d'
    → IsReset mid high d' d''
    → IsReset low high d d''
unfolding is_koala_bear
IsReset-join low mid high d d' d'' p q r s = record {
  same_catalog = cc (r.same_catalog, s.same_catalog);
  same_ids = cc (r.same_ids, s.same_ids);
  same_data = cc (r.same_data, s.same_data);
  same_net = cc (r.same_net, s.same_net);
  same_exec = cc (r.same_exec, s.same_exec);
  commands =
      λ k j h. ground (arith, r.same_catalog, r.same_ids, r.commands k j h, s.commands k j h);
  flags = λ k. ground (arith, r.same_catalog, r.same_ids, r.flags k, s.flags k);
  pending = λ k. ground (arith, r.same_catalog, r.same_ids, r.pending k, s.pending k);
}

mask_bits :
    all_below 32 (λ j. if has_bit 257 j then j == 0 || j == 8 else not (j == 0 || j == 8)) ≡ true
unfolding all_below has_bit
mask_bits = refl

mask_bit : (j : ℕ) → j < 32 → has_bit 257 j ≡ (j == 0 || j == 8)
mask_bit j h = ground (
  arith,
  all_below_sound 32 (λ j. if has_bit 257 j then j == 0 || j == 8 else not (j == 0 || j == 8)) j
      mask_bits h,
)

stop_motors : ℕ → Shm → Shm
stop_motors i m = device_write_helper i Process.executor command_stream 257 zero_params m

stop_motors-IsReset :
    (i : ℕ) (m : Shm) → is_koala_bear m.dev i ≡ true → IsReset i (i + 1) m.dev (stop_motors i m).dev
unfolding stop_motors device_write_helper write_row flag_command
stop_motors-IsReset i m e = record {
  same_catalog = refl;
  same_ids = refl;
  same_data = refl;
  same_net = refl;
  same_exec = refl;
  commands = λ k j h.
      ground
        (arith, e, mask_bit j h, copy_on_lem 257 zero_params (m.dev.params command_stream i) j h);
  flags = λ k. ground (arith, e, has_bit-set k i (m.dev.cmd_map 0));
  pending = λ k. ground (arith, e);
}

write_zeros-place :
    (i uid : ℕ) (m : Shm)
    → get_dev_ix_from_uid uid m ≡ some i
    → write_zeros uid m (some 257) ≡ stop_motors i m
unfolding write_zeros device_write_uid stop_motors
write_zeros-place i uid m e = rw (write_zeros, device_write_uid, e) refl

reset_device-IsReset :
    (i : ℕ) (m : Shm)
    → HasUniqueUids m.dev
    → i < 32
    → has_bit m.dev.catalog i ≡ true
    → IsReset i (i + 1) m.dev (reset_device (m.dev.dev_ids i) m).dev
unfolding is_koala_bear
reset_device-IsReset i m unique h c =
    let dev_id : DevId = m.dev.dev_ids i in
    let stop = write_zeros-place i dev_id.uid m (unique_place i m unique h c) in
    elim (Bool-cases (dev_id.type == 6)) [
      | inl e ↦
          rw (reset_device-mask dev_id m, reset_mask_lem dev_id.type, e, stop)
            (stop_motors-IsReset i m (ground (arith, c, e)))
      | inr e ↦
          rw (reset_device-mask dev_id m, reset_mask_lem dev_id.type, e)
            (unfold write_zeros in IsReset-skip i m.dev (ground (arith, c, e)))
    ]

-- One place of the loop.
IsReset-place :
    (i : ℕ) (m : Shm)
    → HasUniqueUids m.dev
    → i < 32
    → IsReset i
        (i + 1)
        m.dev
        (if has_bit m.dev.catalog i then reset_device (m.dev.dev_ids i) m else m).dev
unfolding is_koala_bear
IsReset-place i m unique h = elim (Bool-cases (has_bit m.dev.catalog i)) [
  | inl e ↦ rw e (reset_device-IsReset i m unique h e)
  | inr e ↦ rw e (IsReset-skip i m.dev (ground (arith, e)))
]

HasUniqueUids-same :
    (d d' : DevShm)
    → d'.catalog ≡ d.catalog
    → d'.dev_ids ≡ d.dev_ids
    → HasUniqueUids d
    → HasUniqueUids d'
HasUniqueUids-same d d' p q unique i j h k a b e =
    unique i j h k (rw p at a) (rw p at b) (rw q at e)

-- The loop looks at the block as it was before it, which has the same catalog and uids.
reset_loop-IsReset :
    (left i : ℕ) (d : DevShm) (m : Shm)
    → HasUniqueUids m.dev
    → i + left ≡ 32
    → d.catalog ≡ m.dev.catalog
    → d.dev_ids ≡ m.dev.dev_ids
    → IsReset i 32 m.dev (reset_loop left i d.catalog d.dev_ids m).dev
unfolding reset_loop
reset_loop-IsReset zero i d m unique h p q = IsReset-empty i 32 m.dev (omega (arith, h))
reset_loop-IsReset (suc left) i d m unique h p q =
    let m' : Shm = if has_bit m.dev.catalog i then reset_device (m.dev.dev_ids i) m else m in
    let first : IsReset i (i + 1) m.dev m'.dev = IsReset-place i m unique (omega (arith, h)) in
    let rest =
      reset_loop-IsReset left (i + 1) d m'
        (HasUniqueUids-same m.dev m'.dev first.same_catalog first.same_ids unique)
        (omega (arith, h)) (cc (p, first.same_catalog)) (cc (q, first.same_ids)) in
    rw (p, q)
      (IsReset-join i (i + 1) 32 m.dev m'.dev _ (omega arith) (omega (arith, h)) first
        (rw (p, q) at rest))

-- Where no two connected devices share a uid, reset_params commands velocity 0 on both motors of
-- every connected KoalaBear and flags the commands, and changes nothing else in the block of the
-- devices.
pub reset_params-IsReset : (m : Shm) → HasUniqueUids m.dev → IsReset 0 32 m.dev (reset_params m).dev
unfolding reset_params get_catalog get_device_identifiers
reset_params-IsReset m unique = reset_loop-IsReset 32 0 m.dev _ unique refl refl refl
