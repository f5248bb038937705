-- ===== src/Can/Mscan/Setup.antt =====
-- The load and unload of the MSCAN driver, rtcan_mscan.c. Memory, the interrupt lines and the chips' first
-- contents are arguments; printing, /proc and the wait of `udelay` are left out.
use rtdm_native.Prelude.{
  ℕ, zero, suc, ◌+◌, bit_or, ltb, ◌==◌, if◌then◌else◌, Bool, true, false, not, ◌||◌, List, [], ◌∷◌,
  Option, none, some,
}
use rtdm_native.Prelude.Bits.{bit_clear}
use rtdm_native.Rtdm.Errno.{Status, ok, err, enomem}
use rtdm_native.Memory.{update}
use rtdm_native.Can.Types.{Config, CanState}
use rtdm_native.Can.Dev.{
  Devices, names_match, rtcan_dev_alloc, rtcan_dev_register, rtcan_dev_unregister,
}
use rtdm_native.Can.Mscan.Chip.{Mscan, get_reg, put_reg, or_reg, canctl1}
use rtdm_native.Can.Mscan.Modes.{in_state, mscan_chip_config, rtcan_mscan_mode_stop}

-- The driver's variables `port` and `rtcan_mscan_devs`, the table of devices, and the interrupt lines
-- that are requested, each by the index of its device.
pub record MscanModule : Type 0 where
  pub port : ℕ → ℕ
  pub mscan_devs : ℕ → Option Mscan
  pub table : Devices
  pub irqs : ℕ → Bool

-- What the kernel and the chips do for one device: `rtcan_dev_alloc` finds memory,
-- `rtdm_irq_request`, the registers at first, CANCTL1 at each read, and what happens in a busy sleep.
pub record Support : Type 0 where
  pub memory : Bool
  pub request : Status
  pub registers : ℕ → ℕ
  pub ack : ℕ → ℕ
  pub meanwhile : ℕ → Mscan → Mscan

-- `mscan_gpio_config`: the port configuration. `psc2` is CONFIG_XENO_DRIVERS_CAN_MSCAN_PSC2.
pub mscan_gpio_config : Bool → Option (List ℕ) → ℕ → ℕ
mscan_gpio_config psc2 pins port_config =
    let to_psc2 : Bool = elim pins [
      | none ↦ psc2
      | some p ↦
          if names_match 4 p (b'p' ∷ b's' ∷ b'c' ∷ b'2' ∷ [])
            || names_match 4 p (b'P' ∷ b'S' ∷ b'C' ∷ b'2' ∷ [])
          then true
          else if names_match 10 p
                (b'i' ∷ b'2' ∷ b'c' ∷ b'1' ∷ b'/' ∷ b't' ∷ b'm' ∷ b'r' ∷ b'0' ∷ b'1' ∷ [])
              || names_match 10 p
                  (b'I' ∷ b'2' ∷ b'C' ∷ b'1' ∷ b'/' ∷ b'T' ∷ b'M' ∷ b'R' ∷ b'0' ∷ b'1' ∷ [])
          then false
          else psc2
    ] in
    if to_psc2
    then bit_or (bit_clear port_config 0x10000070) 0x00000010
    else bit_or port_config 0x10000000

module _ (c : Config) (format : List ℕ → ℕ → List ℕ) (mscan_clock fuel : ℕ) where
  -- The device when its interrupt line is to be requested: enabled, stopped and named.
  pub fresh_mscan : Support → Option Mscan
  unfolding put_reg get_reg rtcan_mscan_mode_stop
  fresh_mscan k =
      let s : Mscan = record {
        dev = record (rtcan_dev_alloc c) { can_sys_clock = mscan_clock };
        state_before_sleep = CanState.active;
        regs = k.registers;
        commands = [];
      } in
      elim (rtcan_mscan_mode_stop (k.ack) (k.meanwhile) fuel
        (in_state CanState.active (or_reg canctl1 0x80 s))) [
          | none ↦ none
          | some (_, s') ↦ some (record s' {
            dev = record (s'.dev) { name = b'r' ∷ b't' ∷ b'c' ∷ b'a' ∷ b'n' ∷ b'%' ∷ b'd' ∷ [] };
          })
        ]

  -- `rtcan_mscan_init_one`; `none` waits for the chip. An error frees the device again.
  pub rtcan_mscan_init_one : Support → ℕ → MscanModule → Option (Status × MscanModule)
  unfolding fresh_mscan mscan_chip_config
  rtcan_mscan_init_one k idx m =
      if not (m.port idx == 1 || m.port idx == 2)
      then some (ok tt, m)
      else if not k.memory
      then some (err enomem, m)
      else elim (fresh_mscan k) [
        | none ↦ none
        | some s ↦ elim (k.request) [
          | err e ↦ some (err e, m)
          | ok _ ↦
              let s' = mscan_chip_config s in
              let (ret, d, ds) = rtcan_dev_register c format (s'.dev) (m.table) in
              elim ret [
                | err e ↦ some (err e, record m { table = ds })
                | ok _ ↦ some (
                  ok tt,
                  record m {
                    mscan_devs = update m.mscan_devs idx (some (record s' { dev = d }));
                    table = ds;
                    irqs = update m.irqs idx true;
                  },
                )
              ]
        ]
      ]

  -- `rtcan_mscan_exit` from the device `i` on, `n` of them. The entries of `rtcan_mscan_devs` stay.
  -- `none`: a chip does not stop, or a device is referenced.
  pub rtcan_mscan_exit : (ℕ → Support) → ℕ → ℕ → MscanModule → Option MscanModule
  unfolding rtcan_mscan_mode_stop
  rtcan_mscan_exit k zero i m = some m
  rtcan_mscan_exit k (suc n) i m = elim (m.mscan_devs i) [
    | none ↦ rtcan_mscan_exit k n (i + 1) m
    | some s ↦ elim (rtcan_mscan_mode_stop ((k i).ack) ((k i).meanwhile) fuel s) [
      | none ↦ none
      | some (_, s') ↦ elim (rtcan_dev_unregister (s'.dev) (m.table)) [
        | none ↦ none
        | some (_, ds) ↦
            rtcan_mscan_exit k n (i + 1) (record m { table = ds; irqs = update m.irqs i false })
      ]
    ]
  ]

  -- The loop of `rtcan_mscan_init`. `(err = rtcan_mscan_init_one(i) != 0)` makes every error a 1.
  pub init_all : (ℕ → Support) → ℕ → ℕ → MscanModule → Option (ℕ × MscanModule)
  unfolding rtcan_mscan_init_one rtcan_mscan_exit
  init_all k zero i m = some (0, m)
  init_all k (suc n) i m =
      let rest = init_all k n (i + 1) m in
      if ltb (m.port i) 1 || ltb 2 (m.port i) then rest else elim (rtcan_mscan_init_one (k i) i m) [
        | none ↦ none
        | some (ok _, m') ↦ init_all k n (i + 1) m'
        | some (err e, m') ↦ elim (rtcan_mscan_exit k 2 0 m') [
          | none ↦ none
          | some m'' ↦ some (1, m'')
        ]
      ]

  -- `rtcan_mscan_init`: the result, the module and the port configuration.
  pub rtcan_mscan_init :
      (ℕ → Support) → Bool → Option (List ℕ) → ℕ → MscanModule → Option (ℕ × MscanModule) × ℕ
  unfolding init_all mscan_gpio_config
  rtcan_mscan_init k psc2 pins port_config m =
      (init_all k 2 0 m, mscan_gpio_config psc2 pins port_config)
