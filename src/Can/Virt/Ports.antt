-- ===== src/Can/Virt/Ports.antt =====
-- One port of the virtual bus: what a frame does to its device.
use rtdm_native.Prelude.{
  ℕ, ◌≤◌, ◌≡◌, refl, arith, bit_and, Bool, true, false, ◌&&◌, ◌||◌, ◌==◌, if◌then◌else◌, List, [],
  ◌∷◌, length, none, some,
}
use rtdm_native.Memory.{update}
use rtdm_native.Can.Types.{Config, Device, Skb, Socket, SockId, can_err_flag, inc32}
use rtdm_native.Can.Socket.{World}
use rtdm_native.Can.Filter.{rtcan_accept_msg}
use rtdm_native.Can.Filter.Chain.{has}
use rtdm_native.Can.Filter.Lists.{IsWf}
use rtdm_native.Can.Receive.{wants_frame, wants_echo, stamp_skb}
use rtdm_native.Can.Receive.Listeners.{Owned, counted, ticks, served, takes, served-takes}
use rtdm_native.Can.Receive.Serving.{
  rtcan_rcv-serves, rtcan_rcv-same_id, rtcan_loopback-ends, echoed, echoing, started,
}
use rtdm_native.Can.Virt.{virt_port, loopback_pending, is_active}
use rtdm_native.Can.Run.{done}

-- The lists of a device are in order, and fit the memory there is.
pub record Port (c : Config) (d : Device) : Type 0 where
  pub rs : List ℕ
  pub es : List ℕ
  pub wf : IsWf d rs es
  pub owned : Owned d.receivers rs
  pub fits : length rs ≤ c.max_receivers

-- Each slot of the bus holds such a device.
abbrev pub IsReady : Config → World → List ℕ → Type 0
IsReady c w [] = Unit {0}
IsReady c w (s ∷ ss) = ((d : Device) × (w.devices s ≡ some d) × Port c d) × IsReady c w ss

-- What a frame with the CAN ID `id` does to the device `d` in a slot.
pub data Gets (c : Config) (tx_slot id slot : ℕ) (d d' : Device) : Type 0 where
  inactive : is_active d.state ≡ false → d' ≡ d → Gets c tx_slot id slot d d'
  receives :
      (rs es : List ℕ)
      → is_active d.state ≡ true
      → (slot == tx_slot) ≡ false
      → IsWf d rs es
      → IsWf d' rs es
      → d'.rx_count ≡ inc32 d.rx_count
      → ((a : ℕ)
          → d'.receivers a
            ≡ counted (has a rs && rtcan_accept_msg id (d.receivers a).can_filter) (d.receivers a))
      → Gets c tx_slot id slot d d'
  echoes :
      (rs es : List ℕ)
      → is_active d.state ≡ true
      → (slot == tx_slot) ≡ true
      → loopback_pending d ≡ true
      → IsWf d rs es
      → IsWf d' rs es
      → d'.tx_socket ≡ none
      → d'.rx_count ≡ ticks inc32 rs d.rx_count
      → ((a : ℕ)
          → d'.receivers a
            ≡ counted
                (has a rs && echoed c d.tx_socket d.tx_skb.rb_frame.can_id (d.receivers a))
                (d.receivers a))
      → Gets c tx_slot id slot d d'
  sends :
      is_active d.state ≡ true
      → (slot == tx_slot) ≡ true
      → loopback_pending d ≡ false
      → d' ≡ d
      → Gets c tx_slot id slot d d'

-- Each slot's device before and after.
abbrev pub Delivered : Config → ℕ → ℕ → World → World → List ℕ → Type 0
Delivered c tx_slot id w w' [] = Unit {0}
Delivered c tx_slot id w w' (s ∷ ss) =
    ((d : Device) × (d' : Device) × (w.devices s ≡ some d)
      × (w'.devices s ≡ some d')
      × Gets c tx_slot id s d d')
    × Delivered c tx_slot id w w' ss

-- Some entry of the port's list belongs to the socket and takes the frame: the one that is sent, and at
-- the sender the one it keeps for the echo.
abbrev pub reaches : ℕ → ℕ → ℕ → Device → List ℕ → SockId → Bool
reaches tx_slot id slot d rs sid =
    is_active d.state
    && takes
        (λ r.
          rtcan_accept_msg (if slot == tx_slot then d.tx_skb.rb_frame.can_id else id) r.can_filter)
        d.receivers rs sid

-- The frame reaches the socket at some port of the bus.
abbrev pub touched :
    (c : Config) → ℕ → ℕ → (w : World) (ss : List ℕ) → IsReady c w ss → SockId → Bool
touched c tx_slot id w [] r sid = false
touched c tx_slot id w (s ∷ ss) ((d, _, p), r) sid =
    reaches tx_slot id s d p.rs sid || touched c tx_slot id w ss r sid

-- The sockets may change where `b` says so.
same_either : {A : Type 0} (b : Bool) (x : A) → x ≡ (if b then x else x)
same_either true x = refl
same_either false x = refl

changed :
    (b b' : Bool) {A : Type 0} (x y : A)
    → (b ≡ true → b' ≡ true)
    → x ≡ (if b then x else y)
    → x ≡ (if b' then x else y)
changed true true x y f e = e
changed true false x y f e = absurd (ground (arith, f refl))
changed false true x y f e = refl
changed false false x y f e = e

-- One port.
pub record Stepped (c : Config) (tx_slot id slot : ℕ) (d : Device) (rs : List ℕ) (w : World)
    (skb' : Skb) (w' : World) : Type 0 where
  pub after : Device
  pub same_id : skb'.rb_frame.can_id ≡ id
  pub at : w'.devices slot ≡ some after
  pub gets : Gets c tx_slot id slot d after
  pub sockets :
      (sid : SockId)
      → w'.socks sid ≡ (if reaches tx_slot id slot d rs sid then w'.socks sid else w.socks sid)
  pub others : (a : ℕ) → (slot == a) ≡ false → w'.devices a ≡ w.devices a

abbrev served_at : ℕ → Device → (SockId → Socket) → World → World
served_at slot d socks w = record w { devices = update w.devices slot (some d); socks = socks }

module _ (c : Config) (clock : ℕ → List ℕ) (tx_slot : ℕ) where
  rcv-reaches :
      (slot : ℕ) (timestamp : List ℕ) (d : Device) (socks : SockId → Socket) (skb : Skb)
      (rs : List ℕ) (sid : SockId)
      → is_active d.state ≡ true
      → (slot == tx_slot) ≡ false
      → served (wants_frame c) (started c timestamp d socks skb) rs sid ≡ true
      → reaches tx_slot skb.rb_frame.can_id slot d rs sid ≡ true
  unfolding stamp_skb
  rcv-reaches slot timestamp d socks skb rs sid a o h =
      rw (a, o)
        (served-takes (wants_frame c) (λ r. rtcan_accept_msg skb.rb_frame.can_id r.can_filter)
          (started c timestamp d socks skb) rs sid (λ u r e. e) h)

  right_of : (x y : Bool) → (x && y) ≡ true → y ≡ true
  right_of true y e = e
  right_of false y e = absurd (ground (arith, e))

  echo-reaches :
      (slot id : ℕ) (timestamp : List ℕ) (d : Device) (socks : SockId → Socket) (rs : List ℕ)
      (sid : SockId)
      → is_active d.state ≡ true
      → (slot == tx_slot) ≡ true
      → served (wants_echo c d.tx_socket) (echoing c timestamp d socks) rs sid ≡ true
      → reaches tx_slot id slot d rs sid ≡ true
  unfolding stamp_skb
  echo-reaches slot id timestamp d socks rs sid a o h =
      rw (a, o)
        (served-takes (wants_echo c d.tx_socket)
          (λ r. rtcan_accept_msg d.tx_skb.rb_frame.can_id r.can_filter)
          (echoing c timestamp d socks) rs sid (λ u r e. right_of _ _ e) h)

  pub virt_port-Stepped :
      (i slot : ℕ) (d : Device) (skb : Skb) (w : World)
      → bit_and skb.rb_frame.can_id can_err_flag ≡ 0
      → w.devices slot ≡ some d
      → (p : Port c d)
      → (skb' : Skb) × (w' : World) × (virt_port c clock tx_slot i slot skb w ≡ done (skb', w'))
        × Stepped c tx_slot skb.rb_frame.can_id slot d p.rs w skb' w'
  unfolding virt_port stamp_skb
  virt_port-Stepped i slot d skb w no_error at p =
      go (is_active d.state) (slot == tx_slot) (loopback_pending d) refl refl refl
    where
      skbᵢ : Skb
      skbᵢ = record skb { rb_frame = record (skb.rb_frame) { can_ifindex = d.ifindex } }

      go :
          (active own pending : Bool)
          → is_active d.state ≡ active
          → (slot == tx_slot) ≡ own
          → loopback_pending d ≡ pending
          → (skb' : Skb) × (w' : World) × (virt_port c clock tx_slot i slot skb w ≡ done (skb', w'))
            × Stepped c tx_slot skb.rb_frame.can_id slot d p.rs w skb' w'
      go false own pending a o q = (
        skb,
        w,
        rw (at, a, virt_port) refl,
        record {
          after = d;
          same_id = refl;
          at = at;
          gets = Gets.inactive a refl;
          sockets = λ sid.
              same_either (reaches tx_slot skb.rb_frame.can_id slot d p.rs sid) (w.socks sid);
          others = λ b h. refl;
        },
      )
      go true false pending a o q =
          let (d', socks', skb', run, wf', count, hits, left) =
            rtcan_rcv-serves c (clock i) d w.socks skbᵢ p.rs p.es no_error p.wf p.owned p.fits in
          (
            skb',
            served_at slot d' socks' w,
            rw (at, a, o, run, virt_port) refl,
            record {
              after = d';
              same_id =
                  rtcan_rcv-same_id c (clock i) d d' w.socks socks' skbᵢ skb' p.rs p.es no_error
                    p.wf p.owned p.fits run;
              at = ground arith;
              gets = Gets.receives p.rs p.es a o p.wf wf' count hits;
              sockets = λ sid.
                  changed _ (reaches tx_slot skb.rb_frame.can_id slot d p.rs sid) _ _
                    (rcv-reaches slot (clock i) d w.socks skbᵢ p.rs sid a o) (left sid);
              others = λ b h. ground (arith, h);
            },
          )
      go true true true a o q =
          let (d', socks', run, wf', gone, count, hits, left) =
            rtcan_loopback-ends c (clock i) d w.socks p.rs p.es p.wf p.owned p.fits in
          (
            skb,
            served_at slot d' socks' w,
            rw (at, a, o, q, run, virt_port) refl,
            record {
              after = d';
              same_id = refl;
              at = ground arith;
              gets = Gets.echoes p.rs p.es a o q p.wf wf' gone count hits;
              sockets = λ sid.
                  changed _ (reaches tx_slot skb.rb_frame.can_id slot d p.rs sid) _ _
                    (echo-reaches slot skb.rb_frame.can_id (clock i) d w.socks p.rs sid a o)
                    (left sid);
              others = λ b h. ground (arith, h);
            },
          )
      go true true false a o q = (
        skb,
        w,
        rw (at, a, o, q, virt_port) refl,
        record {
          after = d;
          same_id = refl;
          at = at;
          gets = Gets.sends a o q refl;
          sockets = λ sid.
              same_either (reaches tx_slot skb.rb_frame.can_id slot d p.rs sid) (w.socks sid);
          others = λ b h. refl;
        },
      )
