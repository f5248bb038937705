-- ===== src/Can/Filter/Tests.antt =====
-- The filters at concrete devices.
use rtdm_native.Prelude.{ℕ, arith, refl, if◌then◌else◌, [], ◌∷◌, ◌≡◌, Option, none, some}
use rtdm_native.Memory.{update}
use rtdm_native.Can.Types.{CanFilter, Config, Device, Recv}
use rtdm_native.Can.Dev.{rtcan_dev_alloc}
use rtdm_native.Can.Filter.{rtcan_accept_msg, rtcan_raw_mount_filter, add_entries, remove_entries}
use rtdm_native.Can.Filter.Accept.{accept-mount, passes}
use rtdm_native.Can.Filter.Chain.{has}
use rtdm_native.Can.Filter.Lists.{IsWf, Held}
use rtdm_native.Can.Filter.Bind.{add_entries-binds}
use rtdm_native.Can.Filter.Unbind.{
  Unbinds, Foreign-nil, Foreign-cons, remove_entries-Unbinds, remove_entries-faults,
}
use rtdm_native.Can.Run.{done, fault}

abbrev small : Config
small = record { rxbuf_log = 6; max_devices = 2; max_receivers = 4 }

-- A filter for all IDs but 0x123.
abbrev inverted : CanFilter
inverted = record { can_id = 0x20000123; can_mask = 0x7FF }

accept_example : rtcan_accept_msg 0x123 (rtcan_raw_mount_filter inverted) ≡ passes 0x123 inverted
accept_example = accept-mount 0x123 inverted refl

-- Entries 0 and 1 are on the reception list, for the sockets 7 and 8; 2 and 3 are empty.
abbrev at_entry : Option ℕ → Option ℕ → Recv
at_entry sock next = record {
  can_filter = record { can_id = 0; can_mask = 0 };
  match_count = 0;
  sock = sock;
  next = next;
}

abbrev entry : ℕ → Recv
entry =
    update
      (update (update (λ _. at_entry none none) 2 (at_entry none (some 3))) 1
        (at_entry (some 8) none))
      0 (at_entry (some 7) (some 1))

abbrev used : Device
used = record (rtcan_dev_alloc small) {
  recv_list = some 0;
  empty_list = some 2;
  receivers = entry;
  free_entries = 2;
}

used-IsWf : IsWf used (0 ∷ 1 ∷ []) (2 ∷ 3 ∷ [])
used-IsWf = record {
  recv = (refl, (refl, refl));
  empty = (refl, (refl, refl));
  recv_once = (refl, (refl, tt));
  empty_once = (refl, (refl, tt));
  apart = λ a h. ground (arith, h);
  free = refl;
}

binds_example :
    (d' : Device) × (add_entries 9 (inverted ∷ []) used ≡ done d')
    × IsWf d' (2 ∷ 0 ∷ 1 ∷ []) (3 ∷ [])
    × Held d'.receivers 9 (inverted ∷ []) (2 ∷ [])
    × ((b : ℕ) → d'.receivers b ≡ (if has b (2 ∷ []) then d'.receivers b else used.receivers b))
binds_example = add_entries-binds 9 (inverted ∷ []) used (0 ∷ 1 ∷ []) (3 ∷ []) [] 2 used-IsWf refl

unbinding_example : Unbinds small 8 used (0 ∷ []) (1 ∷ []) (2 ∷ 3 ∷ [])
unbinding_example =
    remove_entries-Unbinds small 8 used (0 ∷ []) [] [] (2 ∷ 3 ∷ []) 1 used-IsWf
      (Foreign-cons entry 8 0 [] (λ e. ground (arith, e)) (Foreign-nil entry 8)) refl (omega arith)

faults_example : remove_entries small 9 1 used ≡ fault
faults_example =
    remove_entries-faults small 9 1 used (0 ∷ 1 ∷ []) (2 ∷ 3 ∷ []) used-IsWf
      (Foreign-cons entry 9 0 (1 ∷ []) (λ e. ground (arith, e))
        (Foreign-cons entry 9 1 [] (λ e. ground (arith, e)) (Foreign-nil entry 9)))
      (omega arith)
