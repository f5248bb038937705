-- ===== src/Can/Receive/ErrorFrames.antt =====
-- `rtcan_rcv` for an error frame: who gets it.
use rtdm_native.Prelude.{
  ℕ, ◌+◌, ◌≤◌, ◌≡◌, refl, ◌∙◌, ap, arith, bit_and, Bool, false, not, ◌&&◌, ◌==◌, if◌then◌else◌,
  List, length, none, some,
}
use rtdm_native.Can.Types.{Config, Device, Recv, Skb, Socket, SockId, can_err_flag, inc32}
use rtdm_native.Can.Filter.Chain.{has}
use rtdm_native.Can.Filter.Lists.{IsWf}
use rtdm_native.Can.Receive.{Rx, listen, wants_error, rtcan_rcv, stamp_skb, after_rx}
use rtdm_native.Can.Receive.Listeners.{Owned, chosen, counted, served, Serves}
use rtdm_native.Can.Receive.Rounds.{listen-Serves}
use rtdm_native.Can.Receive.Serving.{IsWf-counts, no_ticks}
use rtdm_native.Can.Run.{done}

-- The entry is one of a socket whose error mask has a bit of the CAN ID.
abbrev pub reported : (SockId → Socket) → ℕ → Recv → Bool
reported socks id r = elim (r.sock) [
  | none ↦ false
  | some sid ↦ not (bit_and id (socks sid).err_mask == 0)
]

module _ (c : Config) where
  -- What the loop starts from.
  abbrev pub reporting : List ℕ → Device → (SockId → Socket) → Skb → Rx
  reporting timestamp d socks skb = record {
    receivers = d.receivers;
    socks = socks;
    skb = stamp_skb timestamp skb;
    rx_count = d.rx_count;
  }

  -- An error frame that arrives at a device in order, whose reception list has no more than `max_receivers`
  -- entries, each with its socket: the reception ends without a NULL followed, the lists stay well-formed,
  -- `err_count` goes up by one and `rx_count` stays, the match count goes up by one (modulo 2 ^ 32) at the
  -- entries of the list whose socket has a bit of the CAN ID in its error mask, whatever their filters,
  -- and at no other, and a socket without such an entry is left as it is.
  pub rtcan_rcv-reports :
      (timestamp : List ℕ) (d : Device) (socks : SockId → Socket) (skb : Skb) (rs es : List ℕ)
      → (bit_and skb.rb_frame.can_id can_err_flag == 0) ≡ false
      → IsWf d rs es
      → Owned d.receivers rs
      → length rs ≤ c.max_receivers
      → (d' : Device) × (socks' : SockId → Socket) × (skb' : Skb) × (rtcan_rcv c timestamp d socks
            skb
          ≡ done (d', socks', skb'))
        × IsWf d' rs es
        × (d'.err_count ≡ inc32 d.err_count)
        × (d'.rx_count ≡ d.rx_count)
        × ((a : ℕ)
            → d'.receivers a
              ≡ counted
                  (has a rs && reported socks skb.rb_frame.can_id (d.receivers a))
                  (d.receivers a))
        × ((sid : SockId)
            → socks' sid ≡ (
                if served (wants_error c) (reporting timestamp d socks skb) rs sid
                then socks' sid
                else socks sid))
  unfolding rtcan_rcv stamp_skb
  rtcan_rcv-reports timestamp d socks skb rs es is_error w o l = (
    record d {
      err_count = inc32 d.err_count;
      receivers = after.receivers;
      rx_count = after.rx_count;
    },
    after.socks,
    after.skb,
    rw (is_error, rtcan_rcv) (ap (after_rx c (record d { err_count = inc32 d.err_count })) runs.1),
    record {
      recv = kept.recv;
      empty = kept.empty;
      recv_once = w.recv_once;
      empty_once = w.empty_once;
      apart = w.apart;
      free = w.free;
    },
    refl,
    runs.2.tally ∙ no_ticks c rs d.rx_count,
    runs.2.counts,
    runs.2.others,
  )
    where
      rx : Rx
      rx = reporting timestamp d socks skb

      runs :
          (rx' : Rx) × (listen c (λ n. n) (wants_error c) (c.max_receivers + 1) d.recv_list rx
            ≡ done rx')
          × Serves (λ n. n) (wants_error c) rs rx rx'
      runs =
          listen-Serves c (λ n. n) (wants_error c)
            (λ r r' al sid e.
              ap (λ i. not (bit_and i (r'.socks sid).err_mask == 0)) al.same_id
              ∙ ap (λ m. not (bit_and r.skb.rb_frame.can_id m == 0)) (al.same_masks sid))
            (c.max_receivers + 1) rs d.recv_list rx (omega arith) w.recv w.recv_once o

      after : Rx
      after = runs.0

      kept : IsWf (record d { receivers = after.receivers; rx_count = after.rx_count }) rs es
      kept =
          IsWf-counts c d rs es after.receivers after.rx_count
            (λ a. has a rs && chosen (wants_error c) rx a) runs.2.counts w
