-- ===== src/Can/Receive/Serving.antt =====
-- `rtcan_rcv` and `rtcan_loopback` on a device whose lists are in order.
use rtdm_native.Prelude.{
  ℕ, ◌+◌, ◌≤◌, ◌≡◌, inl, inr, refl, sym, subst, ◌∙◌, ap, arith, bit_and, Bool, false, not, ◌&&◌,
  ◌==◌, if◌then◌else◌, Bool-cases, ==_iff, List, [], ◌∷◌, length, Option, none, some,
}
use rtdm_native.Can.Types.{Config, Device, Recv, Skb, Socket, SockId, can_err_flag, inc32}
use rtdm_native.Can.Filter.{rtcan_accept_msg}
use rtdm_native.Can.Filter.Chain.{Entries, has, Seg-frame}
use rtdm_native.Can.Filter.Lists.{IsWf}
use rtdm_native.Can.Receive.{
  Rx, listen, wants_frame, wants_echo, same_socket, rtcan_rcv, rtcan_loopback, stamp_skb, after_rx,
}
use rtdm_native.Can.Run.{Run, done, fault, out_of_fuel}
use rtdm_native.Can.Receive.Listeners.{Owned, chosen, counted, counted-links, served, ticks, Serves}
use rtdm_native.Can.Receive.Rounds.{listen-Serves}

module _ (c : Config) where
  -- Delivery changes the counts of a device's entries only: its lists stay.
  pub IsWf-counts :
      (d : Device) (rs es : List ℕ) (m : Entries) (count : ℕ) (hit : ℕ → Bool)
      → ((a : ℕ) → m a ≡ counted (hit a) (d.receivers a))
      → IsWf d rs es
      → IsWf (record d { receivers = m; rx_count = count }) rs es
  IsWf-counts d rs es m count hit h w = record {
    recv = Seg-frame d.receivers m d.recv_list none rs (λ a i. links a) w.recv;
    empty = Seg-frame d.receivers m d.empty_list none es (λ a i. links a) w.empty;
    recv_once = w.recv_once;
    empty_once = w.empty_once;
    apart = w.apart;
    free = w.free;
  }
    where
      links : (a : ℕ) → (m a).next ≡ (d.receivers a).next
      links a = ap (λ r. r.next) (h a) ∙ (counted-links (hit a) (d.receivers a)).0

  pub no_ticks : (rs : List ℕ) (n : ℕ) → ticks (λ k. k) rs n ≡ n
  no_ticks [] n = refl
  no_ticks (x ∷ xs) n = no_ticks xs n

  chosen-frame :
      (rx : Rx) (rs : List ℕ) (a : ℕ)
      → Owned rx.receivers rs
      → (has a rs && chosen (wants_frame c) rx a)
        ≡ (has a rs && rtcan_accept_msg rx.skb.rb_frame.can_id (rx.receivers a).can_filter)
  chosen-frame rx [] a o = refl
  chosen-frame rx (x ∷ xs) a o = elim (Bool-cases (x == a)) [
    | inl e ↦
        ap (λ b. (has a (x ∷ xs)) && b)
          (subst
            (λ y.
              chosen (wants_frame c) rx y
              ≡ rtcan_accept_msg rx.skb.rb_frame.can_id (rx.receivers y).can_filter)
            ((==_iff x a).0 e) here)
    | inr e ↦ ground (arith, e, chosen-frame rx xs a o.1)
  ]
    where
      here :
          chosen (wants_frame c) rx x
          ≡ rtcan_accept_msg rx.skb.rb_frame.can_id (rx.receivers x).can_filter
      here =
          ap
            (λ t. elim t as (λ _. Bool) [
              | none ↦ false
              | some u ↦ rtcan_accept_msg rx.skb.rb_frame.can_id (rx.receivers x).can_filter
            ])
            o.0.1

  -- What the loop of `rtcan_rcv` starts from.
  abbrev pub started : List ℕ → Device → (SockId → Socket) → Skb → Rx
  started timestamp d socks skb = record {
    receivers = d.receivers;
    socks = socks;
    skb = stamp_skb timestamp skb;
    rx_count = inc32 d.rx_count;
  }

  rcv_loop :
      (timestamp : List ℕ) (d : Device) (socks : SockId → Socket) (skb : Skb) (rs es : List ℕ)
      → IsWf d rs es
      → Owned d.receivers rs
      → length rs ≤ c.max_receivers
      → (rx' : Rx) × (listen c
            (λ n. n)
            (wants_frame c)
            (c.max_receivers + 1)
            d.recv_list
            (started timestamp d socks skb)
          ≡ done rx')
        × Serves (λ n. n) (wants_frame c) rs (started timestamp d socks skb) rx'
  rcv_loop timestamp d socks skb rs es w o l =
      listen-Serves c (λ n. n) (wants_frame c)
        (λ r r' al sid e. ap (λ i. rtcan_accept_msg i e.can_filter) al.same_id)
        (c.max_receivers + 1) rs d.recv_list (started timestamp d socks skb) (omega arith) w.recv
        w.recv_once o

  -- A data frame that arrives at a device in order, whose reception list has no more than `max_receivers`
  -- entries, each with its socket: the reception ends without a NULL followed, both lists of the device
  -- stay and stay well-formed, `rx_count` goes up by one, the match count goes up by one (modulo
  -- 2 ^ 32) at the entries of the list whose filter takes the frame's CAN ID, and at no other, and a
  -- socket without such an entry is left as it is.
  pub rtcan_rcv-serves :
      (timestamp : List ℕ) (d : Device) (socks : SockId → Socket) (skb : Skb) (rs es : List ℕ)
      → bit_and skb.rb_frame.can_id can_err_flag ≡ 0
      → IsWf d rs es
      → Owned d.receivers rs
      → length rs ≤ c.max_receivers
      → (d' : Device) × (socks' : SockId → Socket) × (skb' : Skb) × (rtcan_rcv c timestamp d socks
            skb
          ≡ done (d', socks', skb'))
        × IsWf d' rs es
        × (d'.rx_count ≡ inc32 d.rx_count)
        × ((a : ℕ)
            → d'.receivers a
              ≡ counted
                  (has a rs && rtcan_accept_msg skb.rb_frame.can_id (d.receivers a).can_filter)
                  (d.receivers a))
        × ((sid : SockId)
            → socks' sid ≡ (
                if served (wants_frame c) (started timestamp d socks skb) rs sid
                then socks' sid
                else socks sid))
  unfolding rtcan_rcv stamp_skb
  rtcan_rcv-serves timestamp d socks skb rs es no_error w o l = (
    d',
    after.socks,
    after.skb,
    rw (no_error, rtcan_rcv) (ap (after_rx c d) runs.1),
    IsWf-counts d rs es after.receivers after.rx_count
        (λ a. has a rs && chosen (wants_frame c) rx a) runs.2.counts w,
    runs.2.tally ∙ no_ticks rs (inc32 d.rx_count),
    λ a. runs.2.counts a ∙ ap (λ b. counted b (d.receivers a)) (chosen-frame rx rs a o),
    runs.2.others,
  )
    where
      rx : Rx
      rx = started timestamp d socks skb

      runs :
          (rx' : Rx) × (listen c (λ n. n) (wants_frame c) (c.max_receivers + 1) d.recv_list rx
            ≡ done rx')
          × Serves (λ n. n) (wants_frame c) rs rx rx'
      runs = rcv_loop timestamp d socks skb rs es w o l

      after : Rx
      after = runs.0

      d' : Device
      d' = record d { receivers = after.receivers; rx_count = after.rx_count }

  -- The CAN ID of a frame stays in the reception.
  pub rtcan_rcv-same_id :
      (timestamp : List ℕ) (d d' : Device) (socks socks' : SockId → Socket) (skb skb' : Skb)
      (rs es : List ℕ)
      → bit_and skb.rb_frame.can_id can_err_flag ≡ 0
      → IsWf d rs es
      → Owned d.receivers rs
      → length rs ≤ c.max_receivers
      → rtcan_rcv c timestamp d socks skb ≡ done (d', socks', skb')
      → skb'.rb_frame.can_id ≡ skb.rb_frame.can_id
  unfolding rtcan_rcv stamp_skb
  rtcan_rcv-same_id timestamp d d' socks socks' skb skb' rs es no_error w o l run =
      let loop = rcv_loop timestamp d socks skb rs es w o l in
      sym (ap received_id run)
      ∙ rw (no_error, rtcan_rcv) (ap (λ r. received_id (after_rx c d r)) loop.1)
      ∙ loop.2.alike.same_id
    where
      received_id : Run (Device × (SockId → Socket) × Skb) → ℕ
      received_id (done (_, _, s)) = s.rb_frame.can_id
      received_id fault = 0
      received_id out_of_fuel = 0

  -- The entry takes an echo of the frame: it is of another socket, and its filter takes the CAN ID.
  abbrev pub echoed : Option SockId → ℕ → Recv → Bool
  echoed sender id r = elim (r.sock) [
    | none ↦ false
    | some sid ↦ not (same_socket c sender sid) && rtcan_accept_msg id r.can_filter
  ]

  -- What the loop of `rtcan_loopback` starts from.
  abbrev pub echoing : List ℕ → Device → (SockId → Socket) → Rx
  echoing timestamp d socks = record {
    receivers = d.receivers;
    socks = socks;
    skb = stamp_skb timestamp d.tx_skb;
    rx_count = d.rx_count;
  }

  -- An echo ends on a well-formed list, whose entries are each counted in `rx_count`. A match is counted
  -- at the entries of other sockets whose filter takes the frame, and no socket but theirs changes.
  pub rtcan_loopback-ends :
      (timestamp : List ℕ) (d : Device) (socks : SockId → Socket) (rs es : List ℕ)
      → IsWf d rs es
      → Owned d.receivers rs
      → length rs ≤ c.max_receivers
      → (d' : Device) × (socks' : SockId → Socket) × (rtcan_loopback c timestamp d socks
          ≡ done (d', socks'))
        × IsWf d' rs es
        × (d'.tx_socket ≡ none)
        × (d'.rx_count ≡ ticks inc32 rs d.rx_count)
        × ((a : ℕ)
            → d'.receivers a
              ≡ counted
                  (has a rs && echoed d.tx_socket d.tx_skb.rb_frame.can_id (d.receivers a))
                  (d.receivers a))
        × ((sid : SockId)
            → socks' sid ≡ (
                if served (wants_echo c d.tx_socket) (echoing timestamp d socks) rs sid
                then socks' sid
                else socks sid))
  unfolding rtcan_loopback stamp_skb
  rtcan_loopback-ends timestamp d socks rs es w o l = (
    record d {
      receivers = after.receivers;
      rx_count = after.rx_count;
      tx_skb = after.skb;
      tx_socket = none;
    },
    after.socks,
    rw (loop.1, rtcan_loopback) refl,
    record {
      recv = kept.recv;
      empty = kept.empty;
      recv_once = w.recv_once;
      empty_once = w.empty_once;
      apart = w.apart;
      free = w.free;
    },
    refl,
    loop.2.tally,
    loop.2.counts,
    loop.2.others,
  )
    where
      rx : Rx
      rx = echoing timestamp d socks

      loop :
          (rx' : Rx) × (listen c inc32
              (wants_echo c d.tx_socket)
              (c.max_receivers + 1)
              d.recv_list
              rx
            ≡ done rx')
          × Serves inc32 (wants_echo c d.tx_socket) rs rx rx'
      loop =
          listen-Serves c inc32 (wants_echo c d.tx_socket)
            (λ r r' al sid e.
              ap (λ i. not (same_socket c d.tx_socket sid) && rtcan_accept_msg i e.can_filter)
                al.same_id)
            (c.max_receivers + 1) rs d.recv_list rx (omega arith) w.recv w.recv_once o

      after : Rx
      after = loop.0

      kept : IsWf (record d { receivers = after.receivers; rx_count = after.rx_count }) rs es
      kept =
          IsWf-counts d rs es after.receivers after.rx_count
            (λ a. has a rs && chosen (wants_echo c d.tx_socket) rx a) loop.2.counts w
