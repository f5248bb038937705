-- ===== src/Can/Mscan/Tests.antt =====
-- Two MSCANs on one bus.
use rtdm_native.Prelude.{◌+◌, refl, ◌≡◌, [], ◌∷◌, false, arith}
use rtdm_native.Can.Types.{Config, CanFrame, CanState, Skb}
use rtdm_native.Can.Dev.{rtcan_dev_alloc}
use rtdm_native.Can.Sja1000.Frames.RoundTrip.{IsFrame, skb_of}
use rtdm_native.Can.Mscan.Chip.{Mscan}
use rtdm_native.Can.Mscan.Frames.{rtcan_mscan_rx_interrupt}
use rtdm_native.Can.Mscan.Frames.RoundTrip.{loaded, rx-start_mscan}

abbrev small : Config
small = record { rxbuf_log = 6; max_devices = 2; max_receivers = 4 }

abbrev sender : Mscan
sender = record {
  dev = rtcan_dev_alloc small;
  state_before_sleep = CanState.active;
  regs = λ _. 0xFF;
  commands = [];
}

-- A standard frame with three bytes.
abbrev short_frame : CanFrame
short_frame = record { can_id = 0x123; can_dlc = 3; payload = 1 ∷ 2 ∷ 3 ∷ 0 ∷ 0 ∷ 0 ∷ 0 ∷ 0 ∷ [] }

short_frame-IsFrame : IsFrame false false 0x123 short_frame
short_frame-IsFrame = record {
  in_range = omega arith;
  id = refl;
  dlc = omega arith;
  full = refl;
  bytes = ground arith;
}

-- The receiver's registers are the sender's, 32 further up.
abbrev receiver : Mscan
receiver = record sender { regs = λ reg. (loaded 1 short_frame sender).regs (reg + 0x20) }

abbrev junk : Skb
junk = record {
  rb_frame_size = 0;
  rb_frame = record {
    can_id = 0;
    can_ifindex = 0;
    can_dlc = 0;
    area = 0 ∷ 0 ∷ 0 ∷ 0 ∷ 0 ∷ 0 ∷ 0 ∷ 0 ∷ 0 ∷ 0 ∷ 0 ∷ 0 ∷ 0 ∷ 0 ∷ 0 ∷ 0 ∷ [];
  };
}

mscan_example :
    rtcan_mscan_rx_interrupt receiver junk
    ≡ skb_of false short_frame receiver.dev.ifindex junk.rb_frame.area
mscan_example =
    rx-start_mscan 1 false 0x123 short_frame sender receiver refl (λ reg l u. refl) false junk
      short_frame-IsFrame
