-- ===== src/Can/Types.antt =====
-- The data of ksrc/drivers/can (rtcan_socket.h, rtcan_list.h, rtcan_dev.h) and of include/rtdm/rtcan.h.
-- Locks are left out: each section that the code runs under a lock is one function here.
use rtdm_native.Prelude.{ℕ, Bool, true, false, ◌+◌, ◌%◌, ◌^◌}
use rtdm_native.Prelude.{List, Option}
use rtdm_native.Prelude.Int.{ℤ}
use rtdm_native.Rtdm.Sem.{Sem}

abbrev pub can_eff_mask : ℕ
can_eff_mask = 0x1FFFFFFF

abbrev pub can_sff_mask : ℕ
can_sff_mask = 0x000007FF

abbrev pub can_eff_flag : ℕ
can_eff_flag = 0x80000000

abbrev pub can_rtr_flag : ℕ
can_rtr_flag = 0x40000000

abbrev pub can_err_flag : ℕ
can_err_flag = 0x20000000

abbrev pub can_inv_filter : ℕ
can_inv_filter = can_err_flag

abbrev pub rtcan_has_timestamp : ℕ
rtcan_has_timestamp = 0x80

abbrev pub rtcan_has_no_timestamp : ℕ
rtcan_has_no_timestamp = 0x7F

-- `sizeof(nanosecs_abs_t)`
abbrev pub rtcan_timestamp_size : ℕ
rtcan_timestamp_size = 8

-- The packed header of `struct rtcan_rb_frame`: the CAN ID, the interface index and the DLC.
abbrev pub empty_rb_frame_size : ℕ
empty_rb_frame_size = 6

-- The build's limits: CONFIG_XENO_DRIVERS_CAN_RXBUF_SIZE is 2 ^ `rxbuf_log` ("must be 2^N").
pub record Config : Type 0 where
  pub rxbuf_log : ℕ
  pub max_devices : ℕ
  pub max_receivers : ℕ

abbrev pub rtcan_rxbuf_size : Config → ℕ
rtcan_rxbuf_size c = 2 ^ c.rxbuf_log

-- `x++` on an `unsigned int`.
abbrev pub inc32 : ℕ → ℕ
inc32 x = (x + 1) % 2 ^ 32

pub record CanFilter : Type 0 where
  pub can_id : ℕ
  pub can_mask : ℕ

-- The pointer `flist` of a socket: NULL, the value -1 (RTCAN_FLIST_NO_FILTER), or the address of a
-- block and its filters.
pub data FilterList : Type 0 where
  null no_filter : FilterList
  block : ℕ → List CanFilter → FilterList

-- `struct can_frame`: `payload` holds the 8 bytes of `data`.
pub record CanFrame : Type 0 where
  pub can_id : ℕ
  pub can_dlc : ℕ
  pub payload : List ℕ

-- `struct rtcan_rb_frame`: `area` holds the 16 bytes of `data` and `timestamp`.
pub record RbFrame : Type 0 where
  pub can_id : ℕ
  pub can_ifindex : ℕ
  pub can_dlc : ℕ
  pub area : List ℕ

pub record Skb : Type 0 where
  pub rb_frame_size : ℕ
  pub rb_frame : RbFrame

-- A `struct rtcan_socket *`, and an index into the array `receivers` of a device.
abbrev pub SockId : Type 0
SockId = ℕ

-- `struct rtcan_socket`, with two flags of the context around it: RTDM_CLOSING and
-- RTCAN_GET_TIMESTAMP. `flistlen` is `none` for RTCAN_SOCK_UNBOUND (-1). `recv_buf` maps an index
-- below RTCAN_RXBUF_SIZE to its byte. `tx_wait_head` lists the waiting tasks.
pub record Socket : Type 0 where
  pub closing : Bool
  pub get_timestamp : Bool
  pub tx_timeout : ℤ
  pub rx_timeout : ℤ
  pub recv_head : ℕ
  pub recv_tail : ℕ
  pub recv_buf : ℕ → ℕ
  pub recv_sem : Sem
  pub tx_wait_head : List ℕ
  pub ifindex : ℕ
  pub flistlen : Option ℕ
  pub err_mask : ℕ
  pub rx_buf_full : ℕ
  pub flist : FilterList
  pub loopback : ℕ

-- `struct rtcan_recv`; `none` is NULL.
pub record Recv : Type 0 where
  pub can_filter : CanFilter
  pub match_count : ℕ
  pub sock : Option SockId
  pub next : Option ℕ

pub data CanState : Type 0 where
  active bus_warning bus_passive bus_off scanning_baudrate stopped sleeping : CanState

pub data CanMode : Type 0 where
  stop start sleep : CanMode

-- `CAN_STATE_OPERATING`
unfoldable pub is_operating : CanState → Bool
is_operating CanState.active = true
is_operating CanState.bus_warning = true
is_operating CanState.bus_passive = true
is_operating CanState.bus_off = false
is_operating CanState.scanning_baudrate = false
is_operating CanState.stopped = false
is_operating CanState.sleeping = false

-- `struct can_bittime`
pub record BittimeStd : Type 0 where
  pub brp : ℕ
  pub prop_seg : ℕ
  pub phase_seg1 : ℕ
  pub phase_seg2 : ℕ
  pub sjw : ℕ
  pub sam : ℕ

pub data Bittime : Type 0 where
  std : BittimeStd → Bittime
  btr : ℕ → ℕ → Bittime

-- `struct rtcan_device`. `receivers` maps an index below RTCAN_MAX_RECEIVERS to its entry.
-- `refcount` and `free_entries` are ints that the code keeps at 0 or above.
pub record Device : Type 0 where
  pub name : List ℕ
  pub ifindex : ℕ
  pub refcount : ℕ
  pub tx_sem : Sem
  pub can_sys_clock : ℕ
  pub baudrate : ℕ
  pub bit_time : Bittime
  pub state : CanState
  pub ctrl_mode : ℕ
  pub recv_list : Option ℕ
  pub empty_list : Option ℕ
  pub receivers : ℕ → Recv
  pub free_entries : ℕ
  pub tx_count : ℕ
  pub rx_count : ℕ
  pub err_count : ℕ
  pub tx_skb : Skb
  pub tx_socket : Option SockId
