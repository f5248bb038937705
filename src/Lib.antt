-- ===== src/Lib.antt =====
-- Verification of rtdm-native: the Real-Time Driver Model over native Linux, and its CAN drivers.
--
-- The RTDM layer gives drivers semaphores, events, mutexes and tasks. The CAN drivers are a protocol of
-- raw sockets over a table of devices. A process binds a socket to one interface or to all; the
-- binding mounts the socket's filters on the reception list of each device. A device driver passes
-- a received frame to `rtcan_rcv`, which offers it to the listeners of its device and copies it into
-- the ring buffer of each socket that takes it, and ups the socket's semaphore. `recvmsg` waits for
-- the semaphore and reads the first message of the ring; `sendmsg` waits for the semaphore of a
-- device and hands the frame to its driver. The serial driver moves characters between a UART and two
-- ring buffers in its interrupt, and between these and its callers in read and write.
--
-- Files and the code they model:
--   Rtdm/Sem            semaphores: include/rtdm/rtdm_driver_native.h and
--                       ksrc/skins/rtdm/native/drvlib.c. Rtdm/Sem/Tokens has the proofs.
--   Rtdm/Mutex          mutexes over the kernel's rt_mutex, in the same two files
--   Rtdm/Event          events, in the same two files; proofs in Rtdm/Event/Outcomes
--   Rtdm/Device         ksrc/skins/rtdm/native/device.c and core.c: registration, open and release; proofs
--                       in Rtdm/Device/Counting, the sockets in Rtdm/Device/Sockets
--   Can/Types           data types of ksrc/drivers/can/*.h and include/rtdm/rtcan.h
--   Can/Run             the outcome of code that follows pointers
--   Can/Dev             ksrc/drivers/can/rtcan_dev.c, the device table; proofs in Can/Dev/Table
--   Can/Filter          ksrc/drivers/can/rtcan_raw_filter.c, the reception lists and filters; proofs in
--                       Can/Filter/Accept, Chain, Lists, Bind and Unbind
--   Can/Ring            `rtcan_rcv_deliver` and MEMCPY_FROM_RING_BUF of ksrc/drivers/can/rtcan_raw.c, the
--                       ring buffer of a socket; proofs in Can/Ring/Window and Frame
--   Can/Recvmsg         `rtcan_raw_recvmsg`; proofs in Can/Recvmsg/Decode, Queueing and Roundtrip
--   Can/Receive         `rtcan_rcv`, `rtcan_loopback`, `rtcan_tx_push`; proofs in Can/Receive/Listeners,
--                       Rounds, Serving and ErrorFrames
--   Can/Sendmsg         `rtcan_raw_sendmsg`; proofs in Can/Sendmsg/Checks
--   Can/Socket          ksrc/drivers/can/rtcan_socket.c, and the state that all calls share
--   Can/Raw             open, bind, close, options and requests of ksrc/drivers/can/rtcan_raw.c
--   Can/Ioctl           ksrc/drivers/can/rtcan_raw_dev.c, the requests on a device; proofs in
--                       Can/Ioctl/BitTime and Timing
--   Can/Virt            ksrc/drivers/can/rtcan_virt.c, the virtual bus; proofs in Can/Virt/Ports and Bus
--   Can/Sja1000         ksrc/drivers/can/sja1000/rtcan_sja1000.c and its two headers: Chip the registers, Frames
--                       reception and transmission, Errors and Interrupt the interrupt handler, Modes start,
--                       stop and sleep, Setup bit timing and registration; proofs in Frames/Fields,
--                       Frames/RoundTrip, Interrupt/Delivery, Modes/Stopping, Semaphore and Setup/Rate
--   Can/Mscan           ksrc/drivers/can/mscan/rtcan_mscan.c and its header: Chip the registers, Frames
--                       reception and transmission, Interrupt, Modes and Setup; proofs in Frames/Buffer and
--                       Frames/RoundTrip
--   Serial/Types        data of ksrc/drivers/serial/16550A.c and include/rtdm/rtserial.h
--   Serial/Queue        the two rings of the serial driver as queues of bytes
--   Serial/Irq          the interrupt handler of 16550A.c; proofs in Serial/Irq/Progress, Serving, Wakeup,
--                       Transmit and Overrun
--   Serial/Config       `rt_16550_set_config`; proofs in Serial/Config/Bounds, Settings,
--                       Registers and Divisor
--   Serial/Transfer     `rt_16550_read` and `rt_16550_write`; proofs in Serial/Transfer/Reading, Polling and
--                       Writing
--   Serial/Device       `rt_16550_open` and `rt_16550_close`
--   Serial/Ioctl        `rt_16550_ioctl`; proofs in Serial/Ioctl/Requests
--   Serial/Module       `__16550A_init` and `__16550A_exit`; proofs in Serial/Module/Cleanup
--   Memory              bytes in memory, `memcpy` and rings, shared by the drivers
--   Prelude             lists, tests, integers and bits, shared by all
--
-- How the code is modelled. A struct is a record and an operation is a function from the state to
-- the result and the state. A section under a lock is one function, so locks do not appear. An
-- entry of a device's `receivers` is its index and NULL is `none`; a read through NULL is the
-- outcome `fault`. The loops over a list of entries take `max_receivers + 1` rounds at most, one more
-- than a list of distinct entries is long. A task that waits is given the list of its turns, each
-- with what other tasks did since the last; when the turns end it still sleeps. What the scheduler, user
-- memory, `rtdm_malloc` and the chip drivers do is an argument of the functions that use it. The
-- ring size is a power of two, as the build's configuration demands; `unsigned int` counters go
-- round at 2 ^ 32. CONFIG_XENO_DRIVERS_CAN_LOOPBACK is on and CONFIG_XENO_DRIVERS_CAN_BUS_ERR is off.
-- The serial driver's context keeps a list of its writes to the device; what the registers answer is a list
-- of polls, and a task's call is a list of turns with what interrupts do in each.
-- The SJA1000's driver likewise keeps a list of its writes; what the registers answer is an argument of each
-- step, and what the interrupt and other tasks do while the lock is dropped for a busy sleep is a
-- function on its state. Its wait for reset mode has the code's 50 rounds.
-- The MSCAN's registers are a map that the driver reads and writes; its two waits without a bound are
-- given a number of rounds, after which the outcome is `none`.
-- The bit-time calculation takes a clock and a rate that an `int` holds; a product goes round at 2 ^ 32, and a
-- division by 0 traps, which is the outcome `none`.
-- A frame's data area stands for the memory from `data` on: a DLC above 8 makes it longer than the frame.
-- Between two turns of a task that waits for a semaphore other tasks up and close it; their own waits
-- are left out. A task tests an event's flags in one look.
--
-- Not modelled: the interrupts, tasks, clock and user copies of drvlib.c and rtdm_driver_native.h, each a
-- call of the kernel's; the boards around the SJA1000, the testing drivers, /proc output, and the
-- examples.
pub mod Prelude
pub mod Memory
pub mod Rtdm
pub mod Can
pub mod Serial
