-- ===== src/Can/Dev/Table.antt =====
-- The device table of rtcan_dev.c: what is registered is found.
use rtdm_native.Prelude.{
  ℕ, zero, suc, ◌+◌, ◌-◌, ◌≤◌, ◌<◌, ◌≡◌, ◌⊎◌, inl, inr, refl, sym, subst, ap, ◌∙◌, arith, List,
  Option, none, some,
}
use rtdm_native.Prelude.Int.{pos}
use rtdm_native.Rtdm.Errno.{Result, Status, ok, err, enomem, eexist}
use rtdm_native.Memory.{update}
use rtdm_native.Can.Types.{Config, Device}
use rtdm_native.Can.Dev.{
  Devices, rtcan_dev_reference, refer, find_by_name, new_index, put_name, rtcan_dev_register,
  rtcan_dev_get_by_index,
}

-- The slot that `new_index` finds is free and the first one, or there is none.
abbrev pub IsFirstFree : Devices → ℕ → ℕ → Result ℕ → Type 0
IsFirstFree ds i n (ok k) = (j : ℕ) × (k ≡ suc j) × (i ≤ j) × (j < i + n) × (ds j ≡ none)
IsFirstFree ds i n (err e) = e ≡ enomem

module _ (c : Config) where
  new_index-IsFirstFree : (ds : Devices) (i n : ℕ) → IsFirstFree ds i n (new_index c ds i n)
  unfolding new_index
  new_index-IsFirstFree ds i zero = refl
  new_index-IsFirstFree ds i (suc n) =
      go (ds i) refl (new_index c ds (i + 1) n) (new_index-IsFirstFree ds (i + 1) n)
    where
      go :
          (o : Option Device)
          → ds i ≡ o
          → (r : Result ℕ) → IsFirstFree ds (i + 1) n r
          → IsFirstFree ds i (suc n) (elim o [ none ↦ ok (i + 1) | some _ ↦ r ])
      go none e r h = (i, omega arith, omega arith, omega arith, e)
      go (some d) e (ok k) h = (h.0, h.1, omega (arith, h.2), omega (arith, h.3), h.4)
      go (some d) e (err x) h = h

  -- What a registration leaves: on success the device stands in a slot that was free, its index is the
  -- slot's, no registered device had its name, and a lookup by the index finds it; on an error, which is
  -- -ENOMEM or -EEXIST, the table is as it was.
  abbrev pub Registers : Devices → Status × Device × Devices → Type 0
  Registers ds (ok _, d', ds') =
      (slot : ℕ) × (d'.ifindex ≡ suc slot)
      × (slot < c.max_devices)
      × (ds slot ≡ none)
      × (ds' ≡ update ds slot (some d'))
      × (find_by_name ds d'.name 0 c.max_devices ≡ none)
      × (rtcan_dev_get_by_index c (pos d'.ifindex) ds' ≡ some (slot, rtcan_dev_reference d'))
  Registers ds (err e, d', ds') = ((e ≡ enomem) ⊎ (e ≡ eexist)) × (ds' ≡ ds)

  put_name-ifindex :
      (format : List ℕ → ℕ → List ℕ) (ds : Devices) (d : Device)
      → (put_name c format ds d).ifindex ≡ d.ifindex
  unfolding put_name
  put_name-ifindex format ds d = ground arith

  found_again :
      (ds : Devices) (d : Device) (slot : ℕ)
      → d.ifindex ≡ suc slot
      → slot < c.max_devices
      → rtcan_dev_get_by_index c (pos d.ifindex) (update ds slot (some d))
        ≡ some (slot, rtcan_dev_reference d)
  unfolding rtcan_dev_get_by_index refer
  found_again ds d slot e l = rw (e, rtcan_dev_get_by_index) (ground (arith, e, l))

  -- The end of the registration, for the first free index `k` and the name that was put.
  placed :
      (ds : Devices) (d : Device) (k : ℕ)
      → d.ifindex ≡ k
      → IsFirstFree ds 0 c.max_devices (ok k)
      → (f : Option (ℕ × Device)) → find_by_name ds d.name 0 c.max_devices ≡ f
      → Registers ds
          (elim f [ some _ ↦ (err eexist, d, ds) | none ↦ (ok tt, d, update ds (k - 1) (some d)) ])
  placed ds d k i h (some x) e = (inr refl, refl)
  placed ds d k i h none e = (
    h.0,
    i ∙ h.1,
    omega (arith, h.3),
    h.4,
    ap (λ j. update ds j (some d)) slot,
    e,
    subst
        (λ j.
          rtcan_dev_get_by_index c (pos d.ifindex) (update ds j (some d))
          ≡ some (h.0, rtcan_dev_reference d))
        (sym slot) (found_again ds d h.0 (i ∙ h.1) (omega (arith, h.3))),
  )
    where
      slot : k - 1 ≡ h.0
      slot = omega (arith, h.1)

  -- A registration, of any device on any table, either puts the device into a free slot, where a lookup by
  -- its index finds it and before which no device had its name, or fails with -ENOMEM or -EEXIST and
  -- leaves the table as it was.
  pub rtcan_dev_register-Registers :
      (format : List ℕ → ℕ → List ℕ) (d : Device) (ds : Devices)
      → Registers ds (rtcan_dev_register c format d ds)
  unfolding rtcan_dev_register
  rtcan_dev_register-Registers format d ds =
      go (new_index c ds 0 c.max_devices) (new_index-IsFirstFree ds 0 c.max_devices)
    where
      named : ℕ → Device
      named index = put_name c format ds (record d { ifindex = index })

      go :
          (r : Result ℕ)
          → IsFirstFree ds 0 c.max_devices r
          → Registers ds (elim r [
            | err e ↦ (err e, d, ds)
            | ok index ↦ elim (find_by_name ds (named index).name 0 c.max_devices) [
              | some _ ↦ (err eexist, named index, ds)
              | none ↦ (ok tt, named index, update ds (index - 1) (some (named index)))
            ]
          ])
      go (err e) h = (inl h, refl)
      go (ok k) h =
          placed ds (named k) k (put_name-ifindex format ds (record d { ifindex = k })) h
            (find_by_name ds (named k).name 0 c.max_devices) refl
