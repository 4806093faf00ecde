-- ===== src/Lib.antt =====
-- Verification of the runtime of the robot: the protocol between dev_handler and the lowcar
-- devices, and the shared memory by which the processes talk to each other.
--
-- The runtime is a set of processes. dev_handler exchanges messages with the devices over serial
-- ports, executor runs the code of the students, and net_handler talks to the clients; each of
-- them reads and writes four blocks of shared memory through shm_wrapper, under semaphores.
--
-- Files and the code they are about:
--   RuntimeUtil: runtime_util/runtime_util.c and .h. Types has the enums and structs; Devices the
--     13 device tables; Lookup the searches by type and name; Buttons the bits of buttons and
--     keys; FileIo `readn` and `writen`.
--   Message: dev_handler/message.c and .h. Cobs has `cobs_encode` and `cobs_decode`, Payload
--     `append_payload` and `checksum`, Build the `make_*` functions, Serial
--     `message_to_bytes`, `parse_message` and `parse_device_data`.
--   Shm: shm_wrapper/shm_wrapper.c and .h, and the state that shm_wrapper/shm_start.c leaves.
--     Types has the blocks as one state; Devices, Params, Subscriptions, Inputs and LogData have
--     the operations; Steps makes each call that writes a step of a relation.
--   Relay: `send_message`, `receive_message` and `verify_device` of dev_handler/dev_handler.c;
--     Relay.Threads has one round each of its threads `sender` and `receiver`, Relay.Relayer the
--     thread `relayer`, and Relay.Ports the scans for new devices and the cleaning up.
--   Gamestate: executor/gamestate_filter.c.
--   NetUtil: net_handler/net_util.c with its frames, and the relays of
--     net_handler/udp_tcp_converter.c.
--   Lowcar: the firmware under lowcar/devices. Types has the enums of Device/defs.h and the serial
--     port; Cobs, Messenger and Logs are Device/Messenger.cpp; Params and Device are
--     Device/Device.cpp, with the loops over a bitmap in the first; Devices has DummyDevice,
--     LimitSwitch, LineFollower and ServoControl, the parameters of PolarBear, and the parameters,
--     the reset and the pins of the motors of KoalaBear.
--   Executor: executor/executor.c. Reset has `reset_params`; Modes the loop of `main` with the child
--     that runs a mode; Python `run_py_function` and `run_mode`; Child `executor_init` and the
--     child's side of `start_mode_subprocess`; Challenges `run_challenges`.
--   NetHandler: Protocol has the messages; TcpConn is the handlers of net_handler/tcp_conn.c,
--     Sessions its threads and the loop of net_handler/net_handler.c, UdpConn
--     net_handler/udp_conn.c.
--   Logger: logger/logger.c and .h.
--   System: the threads of dev_handler, the executor and net_handler over the shared memory, as
--     rounds in any order.
--   Prelude: what the parts share: tests on numbers, lists, words and bitmaps, and `Outcome`.
--
-- How the code is modelled. An operation takes the state and gives the new one with its result.
-- Bytes are lists of numbers, bitmaps are numbers below 2 ^ 32 with `has_bit` for a test of a bit,
-- and a fixed array of the shared memory is a function of its index. An access out of the bounds
-- of an array, or through NULL, is `fault`; a result -1 that stands for nothing is `none`. Each
-- call on a semaphore is recorded in the state. A call is one function of the state; reads and writes
-- of parameters and requests for subscriptions test the catalog before they take a semaphore, so the
-- steps of Shm.Steps have the part under semaphores as a step of its own, and Shm.Params.Late is
-- about a command that is overtaken by a disconnect. In System a round of a thread is one step.
-- A parameter value is the 32-bit word of its union. `malloc` is a
-- parameter: the contents of a fresh block, of which only the size is known. So are `read`, `write`
-- and the other calls of the system, over a state of what a descriptor stands for, and the
-- operations on floats. The interpreter of Python (references are not counted, but for the string
-- whose text is the answer of a challenge), the code that protobuf generates and the sockets
-- are records of functions over states of their own. The parent of the executor records its calls
-- of fork, kill and waitpid; the result of fork is an argument of each round.
--
-- In the firmware, the serial port is a parameter with the laws of Lowcar.Messenger.Ports: bytes
-- that have arrived are read in order, and bytes that are written are appended to those sent. So
-- are what a fresh array of the stack holds (`garbage`), `vsprintf`, and the number of bits of an
-- `int`, which differs between the boards. A device that derives from `Device` is a record of the
-- methods that it overrides, on a state of its own. The time is an argument of each iteration.
--
-- Bounds and fuel. The loops over devices and parameters count down from 32. The loop of the
-- decoder has one step of fuel for each byte of its source, and each round takes a byte. `readn`,
-- `writen` and `receive_message` wait for the other end, so their fuel bounds the number of calls;
-- the fuel of `read_message` bounds the bytes before a delimiter. The student's functions are called
-- for ever, so the fuel of `run_loop` bounds the calls; that of the other processes is the length
-- of the sequence of rounds.
--
-- Not modelled: the calls of the system that open and map the blocks and the semaphores; how the
-- threads of dev_handler start and end, and its locks; how dev_handler and net_handler
-- open ports and sockets, and the start and the end of the threads of net_handler/udp_conn.c; the
-- alarm of the challenges; how the logger opens and closes its files; executor/studentapi.pyx,
-- which is Cython; the LEDs of the devices, the actions of PolarBear and KoalaBear with the PID
-- controller, the BatteryBuzzer and the RFID reader; and the copies of libraries under lowcar/lib.
pub mod Prelude
pub mod RuntimeUtil
pub mod Message
pub mod Relay
pub mod Lowcar
pub mod Shm
pub mod Executor
pub mod Gamestate
pub mod NetHandler
pub mod NetUtil
pub mod Logger
pub mod System
