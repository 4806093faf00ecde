-- ===== src/Shm/Valid.antt =====
-- The invariant of the device block, and that each write of the operations keeps it.
use c_runtime.Prelude.{ℕ, ◌+◌, ◌<◌, ◌^◌, ◌≡◌, refl, arith}
use c_runtime.Prelude.{true, false, not32}
use c_runtime.Prelude.Bits.{
  has_bit, has_bit-set, has_bit-clear, zero-bit_and, bit_or-lt, bit_and-lt, pow-lt-32,
}
use c_runtime.RuntimeUtil.Types.{DevId, ParamVal}
use c_runtime.Shm.Types.{DevShm, Stream}
use c_runtime.Shm.Devices.{connect_at, disconnect_at}
use c_runtime.Shm.Params.{clear_command, flag_command, write_row}
use c_runtime.Shm.Subscriptions.{request_in}
use c_runtime.Shm.Start.{start_devices}

-- Every map holds 32-bit words, and commands are pending only for devices in the catalog.
pub record IsDevShm (d : DevShm) : Type 0 where
  pub catalog_word : d.catalog < 2 ^ 32
  pub cmd_words : (j : ℕ) → d.cmd_map j < 2 ^ 32
  pub net_words : (j : ℕ) → d.net_sub_map j < 2 ^ 32
  pub exec_words : (j : ℕ) → d.exec_sub_map j < 2 ^ 32
  pub flagged : (j : ℕ) → j < 32 → has_bit (d.cmd_map 0) j ≡ true → has_bit d.catalog j ≡ true
  pub quiet : (j : ℕ) → j < 32 → has_bit d.catalog j ≡ false → d.cmd_map (j + 1) ≡ 0

pub start_devices-IsDevShm : IsDevShm start_devices
unfolding start_devices
start_devices-IsDevShm = record {
  catalog_word = omega arith;
  cmd_words = λ j. omega arith;
  net_words = λ j. omega arith;
  exec_words = λ j. omega arith;
  flagged = λ j h e. e;
  quiet = λ j h e. refl;
}

module _ (d : DevShm) (v : IsDevShm d) (ix : ℕ) (h : ix < 32) where
  pub connect_at-IsDevShm : (dev_id : DevId) → IsDevShm (connect_at dev_id ix d)
  unfolding connect_at
  connect_at-IsDevShm dev_id = record {
    catalog_word = bit_or-lt 32 d.catalog (2 ^ ix) v.catalog_word (pow-lt-32 ix h);
    cmd_words = v.cmd_words;
    net_words = λ j. ground (
      arith,
      v.net_words j,
      bit_or-lt 32 (d.net_sub_map 0) (2 ^ ix) (v.net_words 0) (pow-lt-32 ix h),
    );
    exec_words = λ j.
        ground (
          arith,
          v.exec_words j,
          bit_and-lt 32 (d.exec_sub_map 0) (not32 (2 ^ ix)) (v.exec_words 0),
        );
    flagged = λ j k e. ground (arith, has_bit-set j ix d.catalog, v.flagged j k e);
    quiet = λ j k e. ground (arith, has_bit-set j ix d.catalog, v.quiet j k, e);
  }

  pub disconnect_at-IsDevShm : IsDevShm (disconnect_at ix d)
  unfolding disconnect_at
  disconnect_at-IsDevShm = record {
    catalog_word = bit_and-lt 32 d.catalog (not32 (2 ^ ix)) v.catalog_word;
    cmd_words = λ j.
        ground (arith, v.cmd_words j, bit_and-lt 32 (d.cmd_map 0) (not32 (2 ^ ix)) (v.cmd_words 0));
    net_words = v.net_words;
    exec_words = v.exec_words;
    flagged = λ j k e. ground (
      arith,
      e,
      has_bit-clear j ix d.catalog k h,
      has_bit-clear j ix (d.cmd_map 0) k h,
      v.flagged j k,
    );
    quiet = λ j k e. ground (arith, e, has_bit-clear j ix d.catalog k h, v.quiet j k);
  }

  pub clear_command-IsDevShm : (p : ℕ) → IsDevShm (clear_command ix p d)
  unfolding clear_command
  clear_command-IsDevShm p = record {
    catalog_word = v.catalog_word;
    cmd_words = λ j. ground (
      arith,
      v.cmd_words j,
      bit_and-lt 32 (d.cmd_map 0) (not32 (2 ^ ix)) (v.cmd_words 0),
      bit_and-lt 32 (d.cmd_map (ix + 1)) (not32 p) (v.cmd_words (ix + 1)),
    );
    net_words = v.net_words;
    exec_words = v.exec_words;
    flagged = λ j k e. ground (arith, e, has_bit-clear j ix (d.cmd_map 0) k h, v.flagged j k);
    quiet = λ j k e. ground (arith, e, v.quiet j k, zero-bit_and (not32 p));
  }

  pub flag_command-IsDevShm :
      (p : ℕ) → p < 2 ^ 32 → has_bit d.catalog ix ≡ true → IsDevShm (flag_command ix p d)
  unfolding flag_command
  flag_command-IsDevShm p small c = record {
    catalog_word = v.catalog_word;
    cmd_words = λ j. ground (
      arith,
      v.cmd_words j,
      bit_or-lt 32 (d.cmd_map 0) (2 ^ ix) (v.cmd_words 0) (pow-lt-32 ix h),
      bit_or-lt 32 (d.cmd_map (ix + 1)) p (v.cmd_words (ix + 1)) small,
    );
    net_words = v.net_words;
    exec_words = v.exec_words;
    flagged = λ j k e. ground (arith, e, c, has_bit-set j ix (d.cmd_map 0), v.flagged j k);
    quiet = λ j k e. ground (arith, e, c, v.quiet j k);
  }

  pub request_in-lt :
      (map : ℕ → ℕ) (p : ℕ)
      → p < 2 ^ 32
      → ((j : ℕ) → map j < 2 ^ 32)
      → (j : ℕ) → request_in ix p map j < 2 ^ 32
  unfolding request_in
  request_in-lt map p small w j =
      ground (arith, w j, bit_or-lt 32 (map 0) (2 ^ ix) (w 0) (pow-lt-32 ix h))

pub write_row-IsDevShm :
    (d : DevShm)
    → IsDevShm d
    → (s : Stream) (ix p : ℕ) (values : ℕ → ParamVal) → IsDevShm (write_row s ix p values d)
unfolding write_row
write_row-IsDevShm d v s ix p values = record {
  catalog_word = v.catalog_word;
  cmd_words = v.cmd_words;
  net_words = v.net_words;
  exec_words = v.exec_words;
  flagged = v.flagged;
  quiet = v.quiet;
}
