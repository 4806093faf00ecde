-- ===== src/RuntimeUtil/Lookup/Tables.antt =====
-- The device tables are consistent, and the lookups by name find what is in them.
use c_runtime.Prelude.{ℕ, ◌≤◌, ◌<◌, ◌≡◌, refl, arith, Bool, true, false, ◌&&◌, Option, none, some}
use c_runtime.Prelude.{leb, ◌==◌, length, all_below, all_below_sound}
use c_runtime.RuntimeUtil.Types.{Device, devices_length}
use c_runtime.RuntimeUtil.Devices.{param_at}
use c_runtime.RuntimeUtil.Lookup.{get_device, device_name_to_type, get_param_idx, find_param}

-- A table of type `t`.
pub record IsDevice (t : ℕ) (dev : Device) : Type 0 where
  pub indexed : dev.type ≡ t
  pub counted : length dev.params ≡ dev.num_params
  pub some_params : 1 ≤ dev.num_params
  pub few_params : dev.num_params ≤ 32

good : ℕ → Option Device → Bool
good t none = true
good t (some dev) =
    dev.type == t
    && (length dev.params == dev.num_params && (leb 1 dev.num_params && leb dev.num_params 32))

good_table : all_below 64 (λ t. good t (get_device t)) ≡ true
unfolding all_below good get_device
good_table = refl

good-IsDevice :
    (t : ℕ) (o : Option Device) (dev : Device) → good t o ≡ true → o ≡ some dev → IsDevice t dev
unfolding good
good-IsDevice t none dev h e = absurd (cc e)
good-IsDevice t (some d) dev h e = ground (arith, h, e)

get_device-lt : (t : ℕ) (dev : Device) → get_device t ≡ some dev → t < devices_length
unfolding get_device
get_device-lt t dev e = ground (arith, e)

-- Every table that `get_device` finds carries the type it was looked up by, lists as many
-- parameters as it counts, and has between 1 and 32 of them.
pub get_device-IsDevice : (t : ℕ) (dev : Device) → get_device t ≡ some dev → IsDevice t dev
get_device-IsDevice t dev e =
    good-IsDevice t (get_device t) dev
      (all_below_sound 64 (λ t. good t (get_device t)) t good_table (get_device-lt t dev e)) e

named : ℕ → Option Device → Bool
named t none = true
named t (some dev) = device_name_to_type dev.name == t

named_table : all_below 64 (λ t. named t (get_device t)) ≡ true
unfolding all_below named get_device device_name_to_type
named_table = refl

named_inv :
    (t : ℕ) (o : Option Device) (dev : Device)
    → named t o ≡ true
    → o ≡ some dev
    → device_name_to_type dev.name ≡ t
unfolding named
named_inv t none dev h e = absurd (cc e)
named_inv t (some d) dev h e = ground (arith, h, e)

-- No two device types share a name: looking up the name of a type gives the type back.
pub device_name_to_type-get_device :
    (t : ℕ) (dev : Device) → get_device t ≡ some dev → device_name_to_type dev.name ≡ t
device_name_to_type-get_device t dev e =
    named_inv t (get_device t) dev
      (all_below_sound 64 (λ t. named t (get_device t)) t named_table (get_device-lt t dev e)) e

is_some_of : Option ℕ → ℕ → Bool
is_some_of none i = false
is_some_of (some j) i = j == i

is_some_of_inv : (o : Option ℕ) (i : ℕ) → is_some_of o i ≡ true → o ≡ some i
unfolding is_some_of
is_some_of_inv none i h = absurd (cc h)
is_some_of_inv (some j) i h = ground (arith, h)

indexed : Option Device → Bool
indexed none = true
indexed (some dev) =
    all_below dev.num_params
      (λ i. is_some_of (find_param dev.num_params 0 dev (param_at dev i).name) i)

indexed_table : all_below 64 (λ t. indexed (get_device t)) ≡ true
unfolding all_below indexed is_some_of get_device find_param
indexed_table = refl

indexed_inv :
    (o : Option Device) (dev : Device) (i : ℕ)
    → indexed o ≡ true
    → o ≡ some dev
    → i < dev.num_params
    → find_param dev.num_params 0 dev (param_at dev i).name ≡ some i
unfolding indexed
indexed_inv none dev i h e k = absurd (cc e)
indexed_inv (some d) dev i h e k =
    let f : d ≡ dev = cc e in
    is_some_of_inv _ i (
      all_below_sound dev.num_params
        (λ i. is_some_of (find_param dev.num_params 0 dev (param_at dev i).name) i) i (rw f at h) k)

-- Within a device no two parameters share a name: the name of parameter `i` has the index `i`.
pub get_param_idx_lem :
    (t i : ℕ) (dev : Device)
    → get_device t ≡ some dev
    → i < dev.num_params
    → get_param_idx t (param_at dev i).name ≡ some i
unfolding get_param_idx
get_param_idx_lem t i dev e k =
    rw (e, get_param_idx)
      (indexed_inv (get_device t) dev i
        (all_below_sound 64 (λ t. indexed (get_device t)) t indexed_table (get_device-lt t dev e)) e
        k)
