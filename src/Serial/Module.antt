-- ===== src/Serial/Module.antt =====
-- The load and unload of the serial driver, ksrc/drivers/serial/16550A.c: `__16550A_init`,
-- `__16550A_exit` and the probe of PnP devices. What the kernel grants is an argument.
pub mod Cleanup
mod Tests
use rtdm_native.Prelude.{
  ℕ, zero, suc, ◌+◌, ltb, ◌==◌, if◌then◌else◌, Bool, true, false, not, ◌&&◌, List, [], ◌∷◌, Option,
  none, some,
}
use rtdm_native.Memory.{update}
use rtdm_native.Rtdm.Device.{RtdmDevice, rtdm_dev_register}
use rtdm_native.Serial.Types.{Context}
use rtdm_native.Rtdm.Errno.{Result, Status, ok, err, einval, enomem, ebusy, enodev}

abbrev pub max_serial_devices : ℕ
max_serial_devices = 8

abbrev pub default_baud_base : ℕ
default_baud_base = 115200

abbrev pub default_tx_fifo : ℕ
default_tx_fifo = 16

-- The driver's arrays; `device` tells which pointers are set. What the driver holds of the kernel: I/O
-- regions and registered devices, by index, and the PnP driver. `masked` tells which ports had
-- their interrupts masked.
pub record SerialModule : Type 0 where
  pub ioaddr : ℕ → ℕ
  pub irq : ℕ → ℕ
  pub baud_base : ℕ → ℕ
  pub tx_fifo : ℕ → ℕ
  pub device : ℕ → Bool
  pub regions : ℕ → Bool
  pub registered : ℕ → Bool
  pub masked : ℕ → Bool
  pub pnp_registered : Bool

-- What the kernel answers for the port with an index: memory for the device, its I/O region, and the
-- result of `register_chrdev(0, ...)`, the major number or an error. `device_tmpl` is the template of
-- the devices with its handlers, `debug` whether the build has RTDM's assertions.
pub record Grants : Type 0 where
  pub memory : ℕ → Bool
  pub region : ℕ → Bool
  pub chrdev : ℕ → Result ℕ
  pub device_tmpl : RtdmDevice Context
  pub debug : Bool

-- A PnP device: the start of its first port if that is valid, and its interrupt.
pub record PnpDevice : Type 0 where
  pub port_start : Option ℕ
  pub pnp_irq : ℕ

abbrev pub starts_at : Option ℕ → ℕ → Bool
starts_at none a = false
starts_at (some start) a = start == a

-- The loop of `xeno_16550A_pnp_probe` from the port `i` on.
unfoldable pub probe_ports : PnpDevice → ℕ → ℕ → SerialModule → Status × SerialModule
probe_ports d zero i p = (err enodev, p)
probe_ports d (suc n) i p =
    let rest = probe_ports d n (i + 1) p in
    if starts_at d.port_start (p.ioaddr i)
    then (ok tt, if p.irq i == 0 then record p { irq = update p.irq i d.pnp_irq } else p)
    else rest

unfoldable pub xeno_16550_pnp_probe : PnpDevice → SerialModule → Status × SerialModule
unfolding probe_ports
xeno_16550_pnp_probe d p = probe_ports d max_serial_devices 0 p

unfoldable pub probe_all : List PnpDevice → SerialModule → SerialModule
unfolding xeno_16550_pnp_probe
probe_all [] p = p
probe_all (d ∷ ds) p = let (_, p') = xeno_16550_pnp_probe d p in probe_all ds p'

-- The settings and the region of a port: what is assigned before the device is registered.
unfoldable pub take_port : ℕ → SerialModule → SerialModule
take_port i p = record p {
  baud_base = if p.baud_base i == 0 then update p.baud_base i default_baud_base else p.baud_base;
  tx_fifo = if p.tx_fifo i == 0 then update p.tx_fifo i default_tx_fifo else p.tx_fifo;
  masked = update p.masked i true;
  regions = update p.regions i true;
}

-- What `rtdm_dev_register` returns for the port.
unfoldable pub register_result : Grants → ℕ → Result ℕ
register_result k i = (rtdm_dev_register k.debug (k.chrdev i) (ok tt) (ok tt) k.device_tmpl).0

-- The end of a port's round, with the result of `rtdm_dev_register`. A major number is not 0: the code takes
-- it for an error, and frees a device that Linux goes on to know.
unfoldable pub put_device : ℕ → SerialModule → Result ℕ → Result ℕ × SerialModule
put_device i p (err e) = (err e, record p { regions = update p.regions i false })
put_device i p (ok zero) =
    (ok 0, record p { registered = update p.registered i true; device = update p.device i true })
put_device i p (ok (suc major)) = (
  ok (suc major),
  record p { registered = update p.registered i true; regions = update p.regions i false },
)

-- One configured port, up to `device[i] = dev`. An error gives back what this port has taken.
unfoldable pub start_port : Grants → ℕ → SerialModule → Result ℕ × SerialModule
start_port k i p =
    if p.irq i == 0
    then (err einval, p)
    else if not (k.memory i)
    then (err enomem, p)
    else if not (k.region i)
    then (err ebusy, p)
    else put_device i (take_port i p) (register_result k i)

-- One round of the loop of `__16550A_exit`; `rtdm_dev_unregister` polls until it succeeds.
unfoldable pub stop_port : ℕ → SerialModule → SerialModule
stop_port i p =
    if p.device i
    then record p { registered = update p.registered i false; regions = update p.regions i false }
    else p

-- The loop of `__16550A_exit` from the port `i` on.
unfoldable pub stop_ports : ℕ → ℕ → SerialModule → SerialModule
stop_ports zero i p = p
stop_ports (suc n) i p = stop_ports n (i + 1) (stop_port i p)

unfoldable pub serial_exit : SerialModule → SerialModule
unfolding stop_ports
serial_exit p = record (stop_ports max_serial_devices 0 p) { pnp_registered = false }

-- The loop of `__16550A_init` from the port `i` on.
unfoldable pub start_ports : Grants → ℕ → ℕ → SerialModule → Result ℕ × SerialModule
unfolding start_port
start_ports k zero i p = (ok 0, p)
start_ports k (suc n) i p =
    let skip = start_ports k n (i + 1) p in
    if p.ioaddr i == 0
    then skip
    else (let (r, p') = start_port k i p in
        let next = start_ports k n (i + 1) p' in
        elim r [
          | ok zero ↦ next
          | ok (suc major) ↦ (ok (suc major), serial_exit p')
          | err e ↦ (err e, serial_exit p')
        ])

-- `__16550A_init`: `pnp` is whether the PnP driver could be registered, which probes the devices.
unfoldable pub serial_init : Grants → Bool → List PnpDevice → SerialModule → Result ℕ × SerialModule
unfolding start_ports
serial_init k pnp ds p =
    start_ports k max_serial_devices 0
      (if pnp then record (probe_all ds p) { pnp_registered = true } else p)
