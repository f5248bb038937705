-- ===== src/Can/Dev.antt =====
-- The device table of rtcan_dev.c: a slot for each interface index, less one. The build counts
-- references (RTCAN_USE_REFCOUNT). Memory for a device and its `/proc` entries are not modelled.
pub mod Table
mod Tests
use rtdm_native.Prelude.{
  ℕ, zero, suc, ◌+◌, ◌-◌, Bool, true, false, ltb, ◌==◌, if◌then◌else◌, List, [], ◌∷◌, take, Option,
  none, some, replicate,
}
use rtdm_native.Prelude.Int.{ℤ, pos, negsuc}
use rtdm_native.Rtdm.Errno.{Result, ok, err, Status, enomem, eexist, ebusy, enodev}
use rtdm_native.Rtdm.Sem.{Sem, sem_init, sem_destroy}
use rtdm_native.Memory.{update}
use rtdm_native.Can.Types.{Config, Device, Recv, Bittime, CanState, is_operating}

-- `rtcan_devices`
abbrev pub Devices : Type 0
Devices = ℕ → Option Device

-- IFNAMSIZ
abbrev pub ifnamsiz : ℕ
ifnamsiz = 16

unfoldable pub rtcan_dev_reference : Device → Device
rtcan_dev_reference d = record d { refcount = d.refcount + 1 }

unfoldable pub rtcan_dev_dereference : Device → Device
rtcan_dev_dereference d = record d { refcount = d.refcount - 1 }

-- `strncmp(a, b, n) == 0` on names, which end at their first 0 or at the end of the list.
pub names_match : ℕ → List ℕ → List ℕ → Bool
names_match zero a b = true
names_match (suc n) [] [] = true
names_match (suc n) [] (y ∷ ys) = y == 0
names_match (suc n) (x ∷ xs) [] = x == 0
names_match (suc n) (x ∷ xs) (y ∷ ys) =
    let rest = names_match n xs ys in if x == y then (if x == 0 then true else rest) else false

-- `__rtcan_dev_get_by_name`, from slot `i` on for `n` slots: the first slot with that name.
pub find_by_name : Devices → List ℕ → ℕ → ℕ → Option (ℕ × Device)
find_by_name ds name i zero = none
find_by_name ds name i (suc n) =
    let rest = find_by_name ds name (i + 1) n in
    elim (ds i) [
      | none ↦ rest
      | some d ↦ if names_match ifnamsiz d.name name then some (i, d) else rest
    ]

-- A device that is found gets one more reference.
pub refer : Option (ℕ × Device) → Option (ℕ × Device)
unfolding rtcan_dev_reference
refer none = none
refer (some (i, d)) = some (i, rtcan_dev_reference d)

module _ (c : Config) where
  unfoldable pub rtcan_dev_get_by_name : Devices → List ℕ → Option (ℕ × Device)
  unfolding find_by_name refer names_match
  rtcan_dev_get_by_name ds name = refer (find_by_name ds name 0 c.max_devices)

  -- The slot and the device with one more reference; `none` is NULL.
  unfoldable pub rtcan_dev_get_by_index : ℤ → Devices → Option (ℕ × Device)
  unfolding refer
  rtcan_dev_get_by_index (pos zero) ds = none
  rtcan_dev_get_by_index (pos (suc i)) ds =
      if ltb i c.max_devices
      then elim (ds i) [ none ↦ none | some d ↦ refer (some (i, d)) ]
      else none
  rtcan_dev_get_by_index (negsuc n) ds = none

  -- `__rtcan_dev_new_index`: the first free slot, as an index from 1.
  pub new_index : Devices → ℕ → ℕ → Result ℕ
  new_index ds i zero = err enomem
  new_index ds i (suc n) =
      let rest = new_index ds (i + 1) n in elim (ds i) [ none ↦ ok (i + 1) | some _ ↦ rest ]

  -- `rtcan_dev_alloc_name`: the first number whose name is free. `format` is `snprintf` of the mask.
  pub alloc_name : (List ℕ → ℕ → List ℕ) → Devices → List ℕ → ℕ → ℕ → List ℕ
  unfolding find_by_name names_match
  alloc_name format ds mask i zero = mask
  alloc_name format ds mask i (suc n) =
      let rest = alloc_name format ds mask (i + 1) n in
      let buf = take (ifnamsiz - 1) (format mask i) in
      elim (find_by_name ds buf 0 c.max_devices) [ none ↦ buf | some _ ↦ rest ]

  -- `strchr(name, ch) != NULL`
  pub has_char : ℕ → List ℕ → Bool
  has_char ch [] = false
  has_char ch (x ∷ xs) = if x == ch then true else has_char ch xs

  pub put_name : (List ℕ → ℕ → List ℕ) → Devices → Device → Device
  unfolding has_char alloc_name
  put_name format ds d =
      if has_char b'%' d.name
      then record d { name = alloc_name format ds d.name 0 c.max_devices }
      else d

  -- `rtcan_dev_register`: the result, the device with its index and name, and the table. The
  -- debug output and the `/proc` entry are left out.
  unfoldable pub rtcan_dev_register :
      (List ℕ → ℕ → List ℕ) → Device → Devices → Status × Device × Devices
  unfolding new_index put_name find_by_name
  rtcan_dev_register format d ds = elim (new_index ds 0 c.max_devices) [
    | err e ↦ (err e, d, ds)
    | ok index ↦
        let d' = put_name format ds (record d { ifindex = index }) in
        elim (find_by_name ds d'.name 0 c.max_devices) [
          | some _ ↦ (err eexist, d', ds)
          | none ↦ (ok tt, d', update ds (index - 1) (some d'))
        ]
  ]

-- `rtcan_dev_unregister` as far as it does not wait: a device that was never registered and a running
-- one are refused, one with references is polled again later (`none`), any other leaves the table.
unfoldable pub rtcan_dev_unregister : Device → Devices → Option (Status × Devices)
rtcan_dev_unregister d ds =
    if d.ifindex == 0
    then some (err enodev, ds)
    else if is_operating d.state
    then some (err ebusy, ds)
    else if ltb 0 d.refcount
    then none
    else some (ok tt, update ds (d.ifindex - 1) none)

-- The entries of `receivers` after the loop of `rtcan_dev_alloc`: each leads to the next.
pub linked_receivers : ℕ → ℕ → Recv
linked_receivers max i = record {
  can_filter = record { can_id = 0; can_mask = 0 };
  match_count = 0;
  sock = none;
  next = if ltb (i + 1) max then some (i + 1) else none;
}

-- `rtcan_dev_alloc` when memory is there: all is 0 but the semaphore and the receivers.
unfoldable pub rtcan_dev_alloc : Config → Device
unfolding linked_receivers sem_init
rtcan_dev_alloc c = record {
  name = [];
  ifindex = 0;
  refcount = 0;
  tx_sem = sem_init 0;
  can_sys_clock = 0;
  baudrate = 0;
  bit_time =
      Bittime.std
        (record { brp = 0; prop_seg = 0; phase_seg1 = 0; phase_seg2 = 0; sjw = 0; sam = 0 });
  state = CanState.active;
  ctrl_mode = 0;
  recv_list = none;
  empty_list = some 0;
  receivers = linked_receivers c.max_receivers;
  free_entries = c.max_receivers;
  tx_count = 0;
  rx_count = 0;
  err_count = 0;
  tx_skb = record {
    rb_frame_size = 0;
    rb_frame = record { can_id = 0; can_ifindex = 0; can_dlc = 0; area = replicate 16 0 };
  };
  tx_socket = none;
}

-- `rtcan_dev_free`: the memory of the device is given back; what is left is the semaphore that its waiting
-- senders see.
pub rtcan_dev_free : Option Device → Option Sem
unfolding sem_destroy
rtcan_dev_free none = none
rtcan_dev_free (some d) = some (sem_destroy d.tx_sem)
