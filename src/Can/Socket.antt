-- ===== src/Can/Socket.antt =====
-- The sockets of rtcan_socket.c, and the state that all calls of the protocol share.
use rtdm_native.Prelude.{ℕ, ◌==◌, if◌then◌else◌, List, [], ◌∷◌, ◌++◌, none}
use rtdm_native.Prelude.Int.{pos}
use rtdm_native.Rtdm.Sem.{sem_init, sem_destroy}
use rtdm_native.Memory.{update}
use rtdm_native.Can.Types.{Socket, SockId, FilterList, null}
use rtdm_native.Can.Dev.{Devices}

-- The device table, the sockets, `rtcan_socket_list`, what was passed to `rtdm_free`, and the tasks
-- that were passed to `rtdm_task_unblock`, both in order.
pub record World : Type 0 where
  pub devices : Devices
  pub socks : SockId → Socket
  pub socket_list : List SockId
  pub freed : List FilterList
  pub unblocked : List ℕ

abbrev pub put_sock : SockId → Socket → World → World
put_sock sid s w = record w { socks = update w.socks sid s }

-- The fields that `rtcan_socket_init` sets; `recv_buf` and the context's flags stay.
pub init_socket : Socket → Socket
init_socket s = record s {
  recv_sem = sem_init 0;
  recv_head = 0;
  recv_tail = 0;
  ifindex = 0;
  flistlen = none;
  flist = null;
  err_mask = 0;
  rx_buf_full = 0;
  loopback = 1;
  tx_timeout = pos 0;
  rx_timeout = pos 0;
  tx_wait_head = [];
}

unfoldable pub rtcan_socket_init : SockId → World → World
unfolding init_socket
rtcan_socket_init sid w =
    let w' = put_sock sid (init_socket (w.socks sid)) w in
    record w' { socket_list = sid ∷ w.socket_list }

-- The loop of `rtcan_socket_cleanup`: the tasks that wait are taken from the head of the list, one in
-- each round, and woken, until it is empty. The list that is left and the tasks woken before.
pub wake_senders : List ℕ → List ℕ → List ℕ × List ℕ
wake_senders [] woken = ([], woken)
wake_senders (t ∷ ts) woken = wake_senders ts (woken ++ (t ∷ []))

-- `list_del`
pub unlist : SockId → List SockId → List SockId
unlist sid [] = []
unlist sid (x ∷ xs) = if x == sid then xs else x ∷ unlist sid xs

unfoldable pub rtcan_socket_cleanup : SockId → World → World
unfolding wake_senders unlist sem_destroy
rtcan_socket_cleanup sid w =
    let s = w.socks sid in
    let (waiting, woken) = wake_senders s.tx_wait_head w.unblocked in
    let s' = record s { tx_wait_head = waiting; recv_sem = sem_destroy s.recv_sem } in
    record w {
      socks = update w.socks sid s';
      socket_list = unlist sid w.socket_list;
      unblocked = woken;
    }
