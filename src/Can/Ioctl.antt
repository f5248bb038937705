-- ===== src/Can/Ioctl.antt =====
-- The requests on a device of rtcan_raw_dev.c: the bit-time calculation and the settings. The
-- operations of the chip driver are arguments.
pub mod BitTime
pub mod Timing
mod Tests
use rtdm_native.Prelude.{
  ℕ, zero, suc, ◌+◌, ◌-◌, ◌*◌, ◌/◌, ◌%◌, ◌^◌, Bool, true, false, not, ◌&&◌, ◌||◌, ltb, leb, ◌==◌,
  if◌then◌else◌, List, Option, none, some,
}
use rtdm_native.Rtdm.Errno.{Result, ok, err, Status, edom, eopnotsupp, enodev, efault}
use rtdm_native.Memory.{update}
use rtdm_native.Can.Types.{Config, Device, Bittime, BittimeStd, CanMode, CanState, is_operating}
use rtdm_native.Can.Dev.{Devices, rtcan_dev_get_by_name, rtcan_dev_dereference}

abbrev pub rtcan_max_tseg1 : ℕ
rtcan_max_tseg1 = 15

abbrev pub rtcan_max_tseg2 : ℕ
rtcan_max_tseg2 = 7

-- The best candidate so far: the variables `best_error`, `best_tseg` and `best_brp`.
pub record Best : Type 0 where
  pub error : ℕ
  pub tseg : ℕ
  pub brp : ℕ

-- `|a - b|`
abbrev pub distance : ℕ → ℕ → ℕ
distance a b = if ltb a b then b - a else a - b

-- `(1 + tseg / 2) * rate`, on `unsigned int`: the product may go round to 0.
abbrev pub divisor_at : ℕ → ℕ → ℕ
divisor_at rate tseg = (1 + tseg / 2) * rate % 2 ^ 32

-- `clock / ((1 + tseg / 2) * rate) + tseg % 2`; `none` is the trap of a division by 0.
abbrev pub brp_at : ℕ → ℕ → ℕ → Option ℕ
brp_at clock rate tseg =
    if divisor_at rate tseg == 0 then none else some (clock / divisor_at rate tseg + tseg % 2)

-- `clock / (brp * (1 + tseg / 2))`
abbrev pub rate_at : ℕ → ℕ → ℕ → ℕ
rate_at clock brp tseg = clock / (brp * (1 + tseg / 2))

-- A candidate in range that is at least as good replaces the best.
unfoldable pub try_brp : ℕ → ℕ → ℕ → ℕ → Best → Best
try_brp clock rate tseg brp best =
    let error = distance rate (rate_at clock brp tseg) in
    if brp == 0 || ltb 64 brp
    then best
    else if leb error best.error
    then record { error = error; tseg = tseg / 2; brp = brp - 1 }
    else best

-- One round of the loop.
unfoldable pub try_tseg : ℕ → ℕ → ℕ → Best → Option Best
unfolding try_brp
try_tseg clock rate tseg best = elim (brp_at clock rate tseg) [
  | none ↦ none
  | some brp ↦ some (try_brp clock rate tseg brp best)
]

-- `for (tseg = 4; tseg <= 49; tseg++)`: `n` rounds to go.
unfoldable pub try_all : ℕ → ℕ → ℕ → ℕ → Best → Option Best
unfolding try_tseg
try_all clock rate tseg zero best = some best
try_all clock rate tseg (suc n) best = elim (try_tseg clock rate tseg best) [
  | none ↦ none
  | some best' ↦ try_all clock rate (tseg + 1) n best'
]

-- `sampl_pt`, in percent.
unfoldable pub sample_point : ℕ → ℕ
sample_point rate =
    if ltb ((12500 + 10000) / 2) (rate + 1)
    then (if ltb ((1000000 + 500000) / 2) rate then 75 else 90)
    else 75

-- The two phase segments, each less one, from the number of time quanta less one. `int` results below
-- 0 are cut at 0 as the code does it.
unfoldable pub split_tseg : ℕ → ℕ → ℕ × ℕ
split_tseg sampl_pt tseg =
    let wanted = tseg - (sampl_pt * (tseg + 1)) / 100 in
    let tseg2 = if ltb rtcan_max_tseg2 wanted then rtcan_max_tseg2 else wanted in
    let tseg1 = tseg - tseg2 - 2 in
    if ltb rtcan_max_tseg1 tseg1
    then (rtcan_max_tseg1, tseg - rtcan_max_tseg1 - 2)
    else (tseg1, tseg2)

-- The result for the best candidate.
unfoldable pub finish_bit_time : ℕ → Best → Result BittimeStd
finish_bit_time rate best =
    let sjw : ℕ = if ltb rate ((100000 + 125000) / 2) then 1 else 0 in
    let (tseg1, tseg2) = split_tseg (sample_point rate) best.tseg in
    if not (best.error == 0) && ltb (rate / best.error) 10
    then err edom
    else ok (record {
      brp = best.brp + 1;
      prop_seg = 0;
      phase_seg1 = tseg1 + 1;
      phase_seg2 = tseg2 + 1;
      sjw = sjw + 1;
      sam = 0;
    })

-- `rtcan_calc_bit_time`, for a clock and a rate within an `int`; `none` is the trap of a division by 0.
unfoldable pub rtcan_calc_bit_time : ℕ → ℕ → Option (Result BittimeStd)
unfolding finish_bit_time
rtcan_calc_bit_time clock rate =
    elim (try_all clock rate 4 46 (record { error = 1000000000; tseg = 0; brp = 0 })) [
      | none ↦ none
      | some best ↦ some (finish_bit_time rate best)
    ]

-- The chip driver's operations on its device; `none` is a NULL pointer. `do_set_mode` and
-- `do_set_bit_time` may let go of the lock while they run: what happens then is part of them.
pub record ChipOps : Type 0 where
  pub do_set_mode : Option (CanMode → Device → Status × Device)
  pub do_get_state : Option (Device → CanState)
  pub do_set_bit_time : Option (Bittime → Device → Status × Device)

-- The requests of `rtcan_raw_ioctl_dev_get` and what they answer.
pub data GetRequest : Type 0 where
  get_ifindex get_state get_ctrlmode get_baudrate get_custom_bittime : GetRequest

pub data Answer : Type 0 where
  number : ℕ → Answer
  state : CanState → Answer
  bittime : Bittime → Answer

-- `if (dev->do_get_state) dev->state = dev->do_get_state(dev);`
unfoldable pub refresh_state : ChipOps → Device → Device
refresh_state ops d = elim (ops.do_get_state) [ none ↦ d | some f ↦ record d { state = f d } ]

unfoldable pub rtcan_raw_ioctl_dev_get : ChipOps → GetRequest → Device → Answer × Device
rtcan_raw_ioctl_dev_get ops get_ifindex d = (number d.ifindex, d)
rtcan_raw_ioctl_dev_get ops get_state d = let d' = refresh_state ops d in (state d'.state, d')
rtcan_raw_ioctl_dev_get ops get_ctrlmode d = (number d.ctrl_mode, d)
rtcan_raw_ioctl_dev_get ops get_baudrate d = (number d.baudrate, d)
rtcan_raw_ioctl_dev_get ops get_custom_bittime d = (bittime d.bit_time, d)

-- The requests of `rtcan_raw_ioctl_dev_set`.
pub data SetRequest : Type 0 where
  set_mode : CanMode → SetRequest
  set_ctrlmode set_baudrate : ℕ → SetRequest
  set_custom_bittime : Bittime → SetRequest

abbrev pub needs_stop : SetRequest → Bool
needs_stop (set_mode m) = false
needs_stop (set_ctrlmode m) = true
needs_stop (set_baudrate r) = true
needs_stop (set_custom_bittime t) = true

-- A call of an operation that the code makes without a test: NULL is a fault, `none`.
abbrev pub call_mode : ChipOps → CanMode → Device → Option (Status × Device)
call_mode ops m d = elim (ops.do_set_mode) [ none ↦ none | some f ↦ some (f m d) ]

abbrev pub call_bit_time : ChipOps → Bittime → Device → Option (Status × Device)
call_bit_time ops t d = elim (ops.do_set_bit_time) [ none ↦ none | some f ↦ some (f t d) ]

abbrev pub can_baudrate_unknown : ℕ
can_baudrate_unknown = 2 ^ 32 - 1

-- The rate of a custom bit time.
unfoldable pub custom_baudrate : Device → Bittime → ℕ
custom_baudrate d (Bittime.btr a b) = can_baudrate_unknown
custom_baudrate d (Bittime.std t) =
    if t.brp == 0
    then can_baudrate_unknown
    else d.can_sys_clock / (t.brp * (1 + t.prop_seg + t.phase_seg1 + t.phase_seg2))

abbrev pub is_start : CanMode → Bool
is_start CanMode.start = true
is_start _ = false

-- The second switch: `bit_time` is what the first has computed for a baud rate.
unfoldable pub apply_request :
    ChipOps → SetRequest → Option Bittime → Device → Option (Status × Device)
apply_request ops (set_mode m) bit_time d = elim (ops.do_set_mode) [
  | none ↦ some (ok tt, d)
  | some f ↦ if is_start m && is_operating d.state then some (ok tt, d) else some (f m d)
]
apply_request ops (set_ctrlmode m) bit_time d = some (ok tt, record d { ctrl_mode = m })
apply_request ops (set_baudrate r) none d = none
apply_request ops (set_baudrate r) (some t) d = elim (call_bit_time ops t d) [
  | none ↦ none
  | some (err e, d') ↦ some (err e, d')
  | some (ok _, d') ↦ some (ok tt, record d' { baudrate = r; bit_time = t })
]
apply_request ops (set_custom_bittime t) bit_time d = elim (call_bit_time ops t d) [
  | none ↦ none
  | some (err e, d') ↦ some (err e, d')
  | some (ok _, d') ↦ some (ok tt, record d' { bit_time = t; baudrate = custom_baudrate d' t })
]

-- `if (started) dev->do_set_mode(dev, CAN_MODE_START, &lock_ctx);`, its result dropped.
abbrev pub restart : ChipOps → Status × Device → Option (Status × Device)
restart ops (ret, d) = elim (call_mode ops CanMode.start d) [
  | none ↦ none
  | some (_, d') ↦ some (ret, d')
]

-- The critical section: a running device is stopped for a change of its settings, and started again
-- whatever comes of it.
unfoldable pub change_settings :
    ChipOps → SetRequest → Option Bittime → Device → Option (Status × Device)
change_settings ops r bit_time d =
    let d₁ = refresh_state ops d in
    if needs_stop r && is_operating d₁.state
    then (elim (call_mode ops CanMode.stop d₁) [
      | none ↦ none
      | some (err e, d₂) ↦ restart ops (err e, d₂)
      | some (ok _, d₂) ↦ elim (apply_request ops r bit_time d₂) [
        | none ↦ none
        | some out ↦ restart ops out
      ]
    ])
    else apply_request ops r bit_time d₁

-- `rtcan_raw_ioctl_dev_set`. A rate that cannot be had leaves the first switch with -EDOM in `ret`
-- and goes on with a bit time that was never set, `unset`. `none`: a call through NULL, or the trap of a
-- division by 0 in the calculation.
unfoldable pub rtcan_raw_ioctl_dev_set :
    ChipOps → Bittime → SetRequest → Device → Option (Status × Device)
rtcan_raw_ioctl_dev_set ops unset (set_baudrate r) d = elim (ops.do_set_bit_time) [
  | none ↦ some (ok tt, d)
  | some _ ↦ elim (rtcan_calc_bit_time d.can_sys_clock r) [
    | none ↦ none
    | some (err e) ↦ change_settings ops (set_baudrate r) (some unset) d
    | some (ok t) ↦ change_settings ops (set_baudrate r) (some (Bittime.std t)) d
  ]
]
rtcan_raw_ioctl_dev_set ops unset (set_mode m) d = change_settings ops (set_mode m) none d
rtcan_raw_ioctl_dev_set ops unset (set_ctrlmode m) d = change_settings ops (set_ctrlmode m) none d
rtcan_raw_ioctl_dev_set ops unset (set_custom_bittime t) d =
    change_settings ops (set_custom_bittime t) none d

pub data DevRequest : Type 0 where
  get : GetRequest → DevRequest
  set : SetRequest → DevRequest

-- The requests that `rtcan_raw_ioctl_dev` lists; SIOCGCANCTRLMODE is not among them.
abbrev pub is_listed : DevRequest → Bool
is_listed (get get_ctrlmode) = false
is_listed (get _) = true
is_listed (set _) = true

-- The request on the device itself: an answer, and a result. `none` is a call through NULL or
-- the trap of a division by 0.
unfoldable pub run_request :
    ChipOps → Bittime → DevRequest → Device → Option (Option Answer × Status × Device)
run_request ops unset (get r) d =
    let (a, d') = rtcan_raw_ioctl_dev_get ops r d in some (some a, ok tt, d')
run_request ops unset (set r) d = elim (rtcan_raw_ioctl_dev_set ops unset r d) [
  | none ↦ none
  | some (ret, d') ↦ some (none, ret, d')
]

-- `rtcan_raw_ioctl_dev`: `name` is `none` if the copy from user space fails, and `copied` says whether
-- the copy back succeeds. The device is found by its name, with a reference while the request runs.
unfoldable pub rtcan_raw_ioctl_dev :
    Config
    → (ℕ → ChipOps)
    → Bittime
    → DevRequest
    → Option (List ℕ)
    → Bool
    → Devices
    → Option (Option Answer × Status × Devices)
rtcan_raw_ioctl_dev c ops unset r name copied ds =
    if not (is_listed r) then some (none, err eopnotsupp, ds) else elim name [
      | none ↦ some (none, err efault, ds)
      | some n ↦ elim (rtcan_dev_get_by_name c ds n) [
        | none ↦ some (none, err enodev, ds)
        | some (slot, d) ↦ elim (run_request (ops slot) unset r d) [
          | none ↦ none
          | some (a, ret, d') ↦
              let ds' = update ds slot (some (rtcan_dev_dereference d')) in
              elim a [
                | none ↦ some (none, ret, ds')
                | some v ↦ if copied then some (some v, ret, ds') else some (none, err efault, ds')
              ]
        ]
      ]
    ]
