-- ===== src/Can/Receive.antt =====
-- The reception of frames in rtcan_raw.c: `rtcan_rcv`, `rtcan_tx_push` and `rtcan_loopback`.
-- The bytes of `rtdm_clock_read()` are an argument.
pub mod Listeners
pub mod Rounds
pub mod Serving
pub mod ErrorFrames
mod Tests
use rtdm_native.Prelude.{
  ℕ, zero, suc, ◌+◌, ◌-◌, bit_and, Bool, true, false, not, ◌&&◌, ◌==◌, if◌then◌else◌, List, [], ◌∷◌,
  ◌++◌, take, drop, length, Option, none, some,
}
use rtdm_native.Memory.{update}
use rtdm_native.Can.Types.{
  Config, Recv, SockId, Socket, Device, Skb, CanFrame, can_err_flag, can_rtr_flag,
  empty_rb_frame_size, inc32,
}
use rtdm_native.Can.Ring.{rtcan_rcv_deliver}
use rtdm_native.Can.Filter.{rtcan_accept_msg}
use rtdm_native.Can.Run.{Run, done, fault, out_of_fuel}

-- `memcpy(&area[k], bytes, n)`
unfoldable pub overwrite : ℕ → List ℕ → List ℕ → List ℕ
overwrite k bytes area = take k area ++ (bytes ++ drop (k + length bytes) area)

-- `memcpy((void *)&skb->rb_frame + skb->rb_frame_size, &timestamp, RTCAN_TIMESTAMP_SIZE)`. The area stands
-- for the memory from `data` on: behind more than 8 data bytes a part of the timestamp goes behind the
-- 16 bytes of the frame, and the area is longer then.
unfoldable pub stamp_skb : List ℕ → Skb → Skb
stamp_skb timestamp skb =
    let f = skb.rb_frame in
    record skb {
      rb_frame = record f {
        area = overwrite (skb.rb_frame_size - empty_rb_frame_size) timestamp f.area;
      };
    }

-- What the loop over a reception list changes.
pub record Rx : Type 0 where
  pub receivers : ℕ → Recv
  pub socks : SockId → Socket
  pub skb : Skb
  pub rx_count : ℕ

module _ (c : Config) where
  -- `recv_listener->match_count++; rtcan_rcv_deliver(recv_listener, skb);`
  unfoldable pub deliver_to : ℕ → SockId → Rx → Rx
  deliver_to a sid rx =
      let r = rx.receivers a in
      let (s, skb) = rtcan_rcv_deliver c (rx.socks sid) rx.skb in
      record rx {
        receivers = update rx.receivers a (record r { match_count = inc32 r.match_count });
        socks = update rx.socks sid s;
        skb = skb;
      }

  -- One entry: is it for its socket? A listener without a socket is a NULL that is followed.
  unfoldable pub offer : (Rx → SockId → Recv → Bool) → ℕ → Rx → Run Rx
  offer wants a rx = elim ((rx.receivers a).sock) [
    | none ↦ fault
    | some sid ↦ done (if wants rx sid (rx.receivers a) then deliver_to a sid rx else rx)
  ]

  -- `while (recv_listener != NULL)`; `tick` is done to the device's `rx_count` in each round.
  pub listen : (ℕ → ℕ) → (Rx → SockId → Recv → Bool) → ℕ → Option ℕ → Rx → Run Rx
  listen tick wants zero p rx = out_of_fuel
  listen tick wants (suc fuel) none rx = done rx
  listen tick wants (suc fuel) (some a) rx =
      elim (offer wants a (record rx { rx_count = tick rx.rx_count })) [
        | done rx' ↦ listen tick wants fuel ((rx'.receivers a).next) rx'
        | fault ↦ fault
        | out_of_fuel ↦ out_of_fuel
      ]

  -- The tests of the three loops.
  abbrev pub wants_error : Rx → SockId → Recv → Bool
  wants_error rx sid r = not (bit_and rx.skb.rb_frame.can_id (rx.socks sid).err_mask == 0)

  abbrev pub wants_frame : Rx → SockId → Recv → Bool
  wants_frame rx sid r = rtcan_accept_msg rx.skb.rb_frame.can_id r.can_filter

  abbrev pub same_socket : Option SockId → SockId → Bool
  same_socket none sid = false
  same_socket (some t) sid = t == sid

  abbrev pub wants_echo : Option SockId → Rx → SockId → Recv → Bool
  wants_echo sender rx sid r =
      not (same_socket sender sid) && rtcan_accept_msg rx.skb.rb_frame.can_id r.can_filter

  abbrev pub rounds : ℕ
  rounds = c.max_receivers + 1

  abbrev pub after_rx : Device → Run Rx → Run (Device × (SockId → Socket) × Skb)
  after_rx d (done rx) =
      done (record d { receivers = rx.receivers; rx_count = rx.rx_count }, rx.socks, rx.skb)
  after_rx d fault = fault
  after_rx d out_of_fuel = out_of_fuel

  -- `rtcan_rcv`: the device, the sockets, and the frame with the last listener's mark.
  unfoldable pub rtcan_rcv :
      List ℕ → Device → (SockId → Socket) → Skb → Run (Device × (SockId → Socket) × Skb)
  rtcan_rcv timestamp d socks skb =
      let skb' = stamp_skb timestamp skb in
      let start : ℕ → Rx =
        λ count. record { receivers = d.receivers; socks = socks; skb = skb'; rx_count = count } in
      if not (bit_and skb.rb_frame.can_id can_err_flag == 0)
      then after_rx (record d { err_count = inc32 d.err_count })
          (listen (λ n. n) wants_error rounds d.recv_list (start d.rx_count))
      else after_rx d (listen (λ n. n) wants_frame rounds d.recv_list (start (inc32 d.rx_count)))

  -- `rtcan_loopback`: the frame of `tx_skb` to all listeners but the sender.
  unfoldable pub rtcan_loopback :
      List ℕ → Device → (SockId → Socket) → Run (Device × (SockId → Socket))
  rtcan_loopback timestamp d socks =
      let rx : Rx = record {
        receivers = d.receivers;
        socks = socks;
        skb = stamp_skb timestamp d.tx_skb;
        rx_count = d.rx_count;
      } in
      elim (listen inc32 (wants_echo d.tx_socket) rounds d.recv_list rx) [
        | done rx' ↦ done (
          record d {
            receivers = rx'.receivers;
            rx_count = rx'.rx_count;
            tx_skb = rx'.skb;
            tx_socket = none;
          },
          rx'.socks,
        )
        | fault ↦ fault
        | out_of_fuel ↦ out_of_fuel
      ]

-- `rtcan_tx_push`. `payload` is the memory from `frame->data` on: a DLC above 8 reads behind the array.
unfoldable pub rtcan_tx_push : Device → SockId → CanFrame → Device
rtcan_tx_push d sid frame =
    let rb = d.tx_skb.rb_frame in
    let sends = not (frame.can_dlc == 0) && bit_and frame.can_id can_rtr_flag == 0 in
    record d {
      tx_skb = record {
        rb_frame_size = if sends then empty_rb_frame_size + frame.can_dlc else empty_rb_frame_size;
        rb_frame = record {
          can_id = frame.can_id;
          can_ifindex = d.ifindex;
          can_dlc = frame.can_dlc;
          area = if sends then overwrite 0 (take frame.can_dlc frame.payload) rb.area else rb.area;
        };
      };
      tx_socket = some sid;
    }
