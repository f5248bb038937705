-- ===== src/Can/Virt/Tests.antt =====
-- A bus of two ports: the first sends frame 5, for which the second has a listener.
use rtdm_native.Prelude.{ℕ, List, [], ◌∷◌, none, some, false}
use rtdm_native.Prelude.Int.{pos}
use rtdm_native.Memory.{update}
use rtdm_native.Can.Types.{Config, CanFrame, CanState, Device, FilterList, Recv, Socket}
use rtdm_native.Can.Dev.{rtcan_dev_alloc}
use rtdm_native.Can.Socket.{World}

abbrev two_ports : Config
two_ports = record { rxbuf_log = 6; max_devices = 2; max_receivers = 4 }

-- Entry 0 takes frame 5 for socket 7.
abbrev takes_five : ℕ → Recv
takes_five =
    update
      (λ _. record {
        can_filter = record { can_id = 0; can_mask = 0 };
        match_count = 0;
        sock = none;
        next = none;
      })
      0
      (record {
        can_filter = record { can_id = 5; can_mask = 0x7FF };
        match_count = 0;
        sock = some 7;
        next = none;
      })

abbrev listener : Device
listener = record (rtcan_dev_alloc two_ports) {
  state = CanState.active;
  recv_list = some 0;
  empty_list = some 1;
  receivers = takes_five;
  free_entries = 1;
}

abbrev idle_socket : Socket
idle_socket = record {
  closing = false;
  get_timestamp = false;
  tx_timeout = pos 0;
  rx_timeout = pos 0;
  recv_head = 0;
  recv_tail = 0;
  recv_buf = λ _. 0;
  recv_sem = record { count = pos 0; sleepers = 0; destroyed = false };
  tx_wait_head = [];
  ifindex = 0;
  flistlen = none;
  err_mask = 0;
  rx_buf_full = 0;
  flist = FilterList.null;
  loopback = 1;
}

abbrev bus : World
bus = record {
  devices = λ _. some listener;
  socks = λ _. idle_socket;
  socket_list = [];
  freed = [];
  unblocked = [];
}

abbrev frame_five : CanFrame
frame_five = record { can_id = 5; can_dlc = 1; payload = 9 ∷ [] }

abbrev stamps : ℕ → List ℕ
stamps _ = 1 ∷ 2 ∷ 3 ∷ 4 ∷ 5 ∷ 6 ∷ 7 ∷ 8 ∷ []

-- 16 bytes.
abbrev on_stack : List ℕ
on_stack = 1 ∷ 1 ∷ 1 ∷ 1 ∷ 1 ∷ 1 ∷ 1 ∷ 1 ∷ 1 ∷ 1 ∷ 1 ∷ 1 ∷ 1 ∷ 1 ∷ 1 ∷ 1 ∷ []
