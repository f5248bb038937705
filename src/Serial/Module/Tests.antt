-- ===== src/Serial/Module/Tests.antt =====
-- The load of the serial driver with two ports.
use rtdm_native.Prelude.{if◌then◌else◌, ◌==◌, true, false, none, some}
use rtdm_native.Rtdm.Errno.{ok}
use rtdm_native.Rtdm.Device.{RtdmDevice, Operation, named_device}
use rtdm_native.Serial.Types.{Context}
use rtdm_native.Serial.Module.{SerialModule, Grants, PnpDevice}

abbrev unloaded : SerialModule
unloaded = record {
  ioaddr = λ i. if i == 0 then 0x3F8 else if i == 1 then 0x2F8 else 0;
  irq = λ i. if i == 0 then 4 else 0;
  baud_base = λ _. 0;
  tx_fifo = λ _. 0;
  device = λ _. false;
  regions = λ _. false;
  registered = λ _. false;
  masked = λ _. false;
  pnp_registered = false;
}

-- A template without handlers; the build has no assertions.
abbrev template : RtdmDevice Context
template =
    let nothing : Operation Context = record { rt = none; nrt = none } in
    record {
      version_fits = true;
      has_proc_name = true;
      device_type = named_device;
      opening = nothing;
      socket = nothing;
      closing = nothing;
      ioctl = nothing;
      read = nothing;
      write = nothing;
      recvmsg = nothing;
      sendmsg = nothing;
      refcount = 0;
      chrdev_major = ok 0;
      proto_registered = false;
      family_registered = false;
    }

-- Linux gives the first device the major number 253.
abbrev granted : Grants
granted = record {
  memory = λ _. true;
  region = λ _. true;
  chrdev = λ _. ok 253;
  device_tmpl = template;
  debug = false;
}

abbrev second_uart : PnpDevice
second_uart = record { port_start = some 0x2F8; pnp_irq = 3 }
