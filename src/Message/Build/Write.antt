-- ===== src/Message/Build/Write.antt =====
-- The payloads that the constructors build.
use c_runtime.Prelude.{ℕ, zero, suc, ◌+◌, ◌/◌, ◌^◌, ◌≤◌, ◌<◌, ◌≡◌, refl, arith}
use c_runtime.Prelude.{Bool, true, ◌&&◌, not, ltb, List, [], ◌∷◌, ◌++◌, some, done}
use c_runtime.Prelude.{◌==◌, if◌then◌else◌, length, length-append, length-drop, drop}
use c_runtime.Prelude.Bits.{has_bit}
use c_runtime.Prelude.Blocks.{memcpy_at}
use c_runtime.RuntimeUtil.Types.{Device, ParamType, ParamVal, max_params}
use c_runtime.RuntimeUtil.Devices.{param_at}
use c_runtime.Message.Types.{Message, type_size, bytes_of_u16, bytes_of_u32}
use c_runtime.Message.Payload.{append_payload, payload_size_loop, device_write_payload_size}
use c_runtime.Message.MessageId
use c_runtime.Message.Build.{
  value_bytes, append_values, existing_params, readable_params, writeable_params, make_device_write,
  make_subscription_request,
}
use c_runtime.Message.Build.Masks.{has_bit-existing_params, has_bit-writeable_params}
use c_runtime.RuntimeUtil.Lookup.{get_device}
use mathlib.Core.List.{append_assoc, append-nil}

length-zero : (xs : List ℕ) → length xs ≡ 0 → xs ≡ []
length-zero [] h = refl
length-zero (x ∷ xs) h = absurd (omega arith)

-- The bytes of the values whose bits are on, in the order of the parameters, from `i` on.
unfoldable pub encoded : Device → (ℕ → ParamVal) → ℕ → ℕ → ℕ → List ℕ
encoded dev values pmap zero i = []
encoded dev values pmap (suc left) i =
    let rest = encoded dev values pmap left (i + 1) in
    if pmap / 2 ^ i == 0
    then []
    else if has_bit pmap i
    then value_bytes (param_at dev i).type (values i) ++ rest
    else rest

length-value_bytes : (t : ParamType) (v : ParamVal) → length (value_bytes t v) ≡ type_size t
length-value_bytes ParamType.int v = refl
length-value_bytes ParamType.float v = refl
length-value_bytes ParamType.bool v = refl

pub length-encoded :
    (dev : Device) (values : ℕ → ParamVal) (pmap left i : ℕ)
    → length (encoded dev values pmap left i) ≡ payload_size_loop dev pmap left i
unfolding encoded payload_size_loop
length-encoded dev values pmap zero i = refl
length-encoded dev values pmap (suc left) i = ground (
  arith,
  length-append (value_bytes (param_at dev i).type (values i))
      (encoded dev values pmap left (i + 1)),
  length-value_bytes (param_at dev i).type (values i),
  length-encoded dev values pmap left (i + 1),
)

-- A message whose block holds `w` in use and then `j`.
abbrev pub holding : ℕ → ℕ → List ℕ → List ℕ → Message
holding id m w j = record {
  message_id = id;
  payload = w ++ j;
  payload_length = length w;
  max_payload_length = m;
}

pub append_payload_lem :
    (id m : ℕ) (w j d : List ℕ)
    → length d ≤ length j
    → length w + length d ≤ m
    → append_payload (holding id m w j) d ≡ done (true, holding id m (w ++ d) (drop (length d) j))
unfolding append_payload
append_payload_lem id m w j d h k = ground (
  arith,
  memcpy_at w j d (length w) refl h,
  append_assoc w d (drop (length d) j),
  length-append w d,
)

pub drop-drop :
    (a b : List ℕ) (j : List ℕ) → drop (length b) (drop (length a) j) ≡ drop (length (a ++ b)) j
drop-drop [] b j = refl
drop-drop (x ∷ a) [] [] = refl
drop-drop (x ∷ a) (y ∷ b) [] = refl
drop-drop (x ∷ a) b (z ∷ j) = drop-drop a b j

pub append_values_lem :
    (dev : Device) (values : ℕ → ParamVal) (pmap left i id m : ℕ) (w j : List ℕ)
    → payload_size_loop dev pmap left i ≤ length j
    → length w + payload_size_loop dev pmap left i ≤ m
    → let out = encoded dev values pmap left i in
      append_values dev values pmap left i true (holding id m w j)
      ≡ done (true, holding id m (w ++ out) (drop (length out) j))
unfolding append_values encoded payload_size_loop
append_values_lem dev values pmap zero i id m w j h k = ground (arith, append-nil w)
append_values_lem dev values pmap (suc left) i id m w j h k =
    let v : List ℕ = value_bytes (param_at dev i).type (values i) in
    let rest : List ℕ = encoded dev values pmap left (i + 1) in
    ground (
      arith,
      append-nil w,
      append_payload_lem id m w j v,
      append_values_lem dev values pmap left (i + 1) id m w j,
      append_values_lem dev values pmap left (i + 1) id m (w ++ v) (drop (length v) j),
      append_assoc w v rest,
      drop-drop v rest j,
      length-drop (length v) j,
      length-append w v,
      length-value_bytes (param_at dev i).type (values i),
    )

-- A block with nothing in use.
fresh-append :
    (id m : ℕ) (j d : List ℕ)
    → length d ≤ length j
    → length d ≤ m
    → append_payload
        (record { message_id = id; payload = j; payload_length = 0; max_payload_length = m })
        d
      ≡ done (true, holding id m d (drop (length d) j))
fresh-append id m j d h k = append_payload_lem id m [] j d h (omega arith)

-- The parameters of a device that a DEVICE_WRITE may name.
abbrev pub written_params : Device → ℕ → ℕ
written_params dev pmap = writeable_params dev max_params 0 (existing_params dev pmap)

-- A parameter that exists, can be written and is asked for.
abbrev pub is_written : Device → ℕ → ℕ → Bool
is_written dev pmap j =
    has_bit pmap j && (ltb j dev.num_params && not ((param_at dev j).write == 0))

pub has_bit-written_params :
    (dev : Device) (pmap j : ℕ)
    → dev.num_params ≤ 32
    → j < 32
    → has_bit (written_params dev pmap) j ≡ is_written dev pmap j
has_bit-written_params dev pmap j few h = ground (
  arith,
  has_bit-writeable_params dev 32 0 (existing_params dev pmap) j,
  has_bit-existing_params dev pmap j few,
)

abbrev pub subscribed_params : Device → ℕ → ℕ
subscribed_params dev pmap = readable_params dev max_params 0 (existing_params dev pmap)

-- Given blocks of the size asked for, `make_device_write` succeeds for every device type that
-- exists: no append runs past the block, none of them reports a short payload, and the block ends
-- up filled exactly, with the masked bitmap and then the values of its parameters in their order.
pub make_device_write_lem :
    (malloc : ℕ → List ℕ)
    → ((n : ℕ) → length (malloc n) ≡ n)
    → (dev_type pmap : ℕ) (values : ℕ → ParamVal) (dev : Device) → get_device dev_type ≡ some dev
    → let p = written_params dev pmap in
      let payload = bytes_of_u32 p ++ encoded dev values p max_params 0 in
      (make_device_write malloc dev_type pmap values
        ≡ done (some (holding MessageId.device_write (length payload) payload [])))
      × (length payload ≡ device_write_payload_size dev p)
unfolding make_device_write device_write_payload_size
make_device_write_lem malloc sizes dev_type pmap values dev e =
    let p = written_params dev pmap in
    let size = 4 + payload_size_loop dev p max_params 0 in
    let out : List ℕ = encoded dev values p max_params 0 in
    let block : List ℕ = drop 4 (malloc size) in
    let rest : drop (length out) block ≡ [] = length-zero _ (
      omega (
        arith,
        length-drop (length out) block,
        length-drop 4 (malloc size),
        sizes size,
        length-encoded dev values p max_params 0,
      )) in
    (
      ground (
        arith,
        e,
        sizes size,
        length-drop 4 (malloc size),
        length-encoded dev values p max_params 0,
        fresh-append MessageId.device_write size (malloc size) (bytes_of_u32 p),
        append_values_lem dev values p max_params 0 MessageId.device_write size (bytes_of_u32 p)
            block,
        rest,
      ),
      omega (arith, length-encoded dev values p max_params 0),
    )

-- Given blocks of the size asked for, `make_subscription_request` succeeds for every device type
-- that exists, with a payload of the masked bitmap and then the interval.
pub make_subscription_request_lem :
    (malloc : ℕ → List ℕ)
    → ((n : ℕ) → length (malloc n) ≡ n)
    → (dev_type pmap interval : ℕ) (dev : Device) → get_device dev_type ≡ some dev
    → make_subscription_request malloc dev_type pmap interval
      ≡ done (
          some (
            holding MessageId.subscription_request 6
              (bytes_of_u32 (subscribed_params dev pmap) ++ bytes_of_u16 interval)
              []))
unfolding make_subscription_request
make_subscription_request_lem malloc sizes dev_type pmap interval dev e =
    let p : ℕ = subscribed_params dev pmap in
    let block : List ℕ = drop 4 (malloc 6) in
    let rest : drop 2 block ≡ [] =
      length-zero _ (omega (arith, length-drop 2 block, length-drop 4 (malloc 6), sizes 6)) in
    ground (
      arith,
      e,
      sizes 6,
      length-drop 4 (malloc 6),
      fresh-append MessageId.subscription_request 6 (malloc 6) (bytes_of_u32 p),
      append_payload_lem MessageId.subscription_request 6 (bytes_of_u32 p) block
          (bytes_of_u16 interval),
      rest,
    )
