-- ===== src/Message/MessageId.antt =====
-- `message_id_t` of dev_handler/message.h. The field `message_id` holds whatever byte was parsed;
-- these are the values that the enum names.
use c_runtime.Prelude.{ℕ}

abbrev pub nop : ℕ
nop = 0

abbrev pub device_ping : ℕ
device_ping = 1

abbrev pub acknowledgement : ℕ
acknowledgement = 2

abbrev pub subscription_request : ℕ
subscription_request = 3

abbrev pub device_write : ℕ
device_write = 4

abbrev pub device_data : ℕ
device_data = 5

abbrev pub log : ℕ
log = 6
