-- ===== src/Can/Raw.antt =====
-- The calls of rtcan_raw.c on a socket: open, bind, close, the socket options and the requests. The
-- address of `rtdm_malloc`, or NULL, and what a copy from user space brings, or its failure, are
-- arguments. The build has CONFIG_XENO_DRIVERS_CAN_LOOPBACK.
use rtdm_native.Prelude.{
  ℕ, ◌/◌, ◌%◌, Bool, true, false, not, ◌&&◌, ◌||◌, ltb, ◌==◌, if◌then◌else◌, List, [], ◌∷◌, ◌++◌,
  Option, none, some,
}
use rtdm_native.Prelude.Int.{ℤ, pos, negsuc}
use rtdm_native.Rtdm.Errno.{
  ok, err, Status, einval, enodev, ebadf, enomem, efault, enoprotoopt, eprotonosupport,
}
use rtdm_native.Can.Types.{Config, CanFilter, FilterList, null, no_filter, block, SockId}
use rtdm_native.Can.Socket.{World, put_sock, rtcan_socket_init, rtcan_socket_cleanup}
use rtdm_native.Can.Filter.{
  is_bound, rtcan_raw_check_filter, rtcan_raw_add_filter, rtcan_raw_remove_filter,
}
use rtdm_native.Can.Run.{Run, done, ◌>>=◌}

-- `af_can` is AF_CAN; `can_proto_raw` is CAN_PROTO_RAW.
abbrev pub af_can : ℕ
af_can = 29

abbrev pub can_proto_raw : ℕ
can_proto_raw = 0

-- `sizeof(struct can_filter)`, `sizeof(can_err_mask_t)` and `sizeof(int)`
abbrev pub sizeof_can_filter : ℕ
sizeof_can_filter = 8

abbrev pub sizeof_int : ℕ
sizeof_int = 4

unfoldable pub rtcan_raw_socket : SockId → ℕ → World → Status × World
rtcan_raw_socket sid protocol w =
    if not (protocol == can_proto_raw) && not (protocol == 0)
    then (err eprotonosupport, w)
    else (ok tt, rtcan_socket_init sid w)

-- `!rtcan_flist_no_filter(flist) && flist`
abbrev pub is_block : FilterList → Bool
is_block null = false
is_block no_filter = false
is_block (block a fs) = true

abbrev pub is_no_filter : FilterList → Bool
is_no_filter null = false
is_no_filter no_filter = true
is_no_filter (block a fs) = false

abbrev pub is_null : FilterList → Bool
is_null null = true
is_null no_filter = false
is_null (block a fs) = false

-- `rtdm_free`
abbrev pub rtdm_free : FilterList → World → World
rtdm_free p w = record w { freed = w.freed ++ (p ∷ []) }

module _ (c : Config) where
  -- `rtcan_raw_remove_filter` on the state.
  abbrev pub remove_filter : SockId → World → Run World
  remove_filter sid w = do
    ds ← rtcan_raw_remove_filter c sid (w.socks sid) w.devices
    done (record w { devices = ds })

  -- `sock->flistlen = rtcan_raw_add_filter(sock, ifindex);`
  abbrev pub add_filter : SockId → ℕ → World → Run World
  add_filter sid ifindex w = do
    (n, ds) ← rtcan_raw_add_filter c sid (w.socks sid) ifindex w.devices
    done (put_sock sid (record (w.socks sid) { flistlen = some n }) (record w { devices = ds }))

  unfoldable pub rtcan_raw_unbind : SockId → World → Run World
  rtcan_raw_unbind sid w = do
    w' ← remove_filter sid w
    let s = w'.socks sid
    let w'' = if is_block s.flist then rtdm_free s.flist w' else w'
    done (put_sock sid (record s { flist = null; flistlen = none; ifindex = 0 }) w'')

  unfoldable pub rtcan_raw_close : SockId → World → Run World
  rtcan_raw_close sid w = do
    w' ← if is_bound (w.socks sid) then rtcan_raw_unbind sid w else done w
    done (rtcan_socket_cleanup sid w')

  -- `family` and `ifindex` are the fields of the socket address.
  unfoldable pub rtcan_raw_bind : SockId → ℕ → ℤ → World → Run (Status × World)
  rtcan_raw_bind sid family (negsuc n) w =
      if not (family == af_can) then done (err einval, w) else done (err enodev, w)
  rtcan_raw_bind sid family (pos ifindex) w =
      let s = w.socks sid in
      if not (family == af_can)
      then done (err einval, w)
      else if ltb c.max_devices ifindex
      then done (err enodev, w)
      else if s.closing
      then done (err ebadf, w)
      else elim (rtcan_raw_check_filter c s ifindex s.flist w.devices) [
        | err e ↦ done (err e, w)
        | ok _ ↦ do
          w₁ ← remove_filter sid w
          w₂ ← add_filter sid ifindex w₁
          done (ok tt, put_sock sid (record (w₂.socks sid) { ifindex = ifindex }) w₂)
      ]

  -- Is there room for `flist` if the socket is bound? (`rtcan_raw_check_filter` says so, and
  -- is not asked for RTCAN_FLIST_NO_FILTER.)
  abbrev pub check_bound : SockId → FilterList → World → Status
  check_bound sid flist w =
      let s = w.socks sid in
      if is_bound s && not (is_no_filter flist)
      then rtcan_raw_check_filter c s s.ifindex flist w.devices
      else ok tt

  -- The critical section of CAN_RAW_FILTER.
  pub replace_filter : SockId → FilterList → World → Run (Status × World)
  replace_filter sid flist w = elim (check_bound sid flist w) [
    | err e ↦ done (err e, rtdm_free flist w)
    | ok _ ↦ do
      let bound = is_bound (w.socks sid)
      w₁ ← if bound then remove_filter sid w else done w
      let s = w₁.socks sid
      let w₂ =
          if not (is_no_filter flist) && not (is_null s.flist) then rtdm_free s.flist w₁ else w₁
      let w₃ = put_sock sid (record s { flist = flist }) w₂
      w₄ ← if bound then add_filter sid s.ifindex w₃ else done w₃
      done (ok tt, w₄)
  ]

  -- CAN_RAW_FILTER: `optlen` bytes of filters, `address` from `rtdm_malloc`, `user` the filters.
  unfoldable pub set_filter :
      SockId → ℕ → Option ℕ → Option (List CanFilter) → World → Run (Status × World)
  set_filter sid optlen address user w =
      let flistlen = optlen / sizeof_can_filter in
      if optlen == 0
      then replace_filter sid no_filter w
      else if ltb flistlen 1
          || ltb c.max_receivers flistlen
          || not (optlen % sizeof_can_filter == 0)
      then done (err einval, w)
      else elim address [
        | none ↦ done (err enomem, w)
        | some a ↦ elim user [
          | none ↦ done (err efault, rtdm_free (block a []) w)
          | some fs ↦ replace_filter sid (block a fs) w
        ]
      ]

-- CAN_RAW_ERR_FILTER, with `user` the mask.
unfoldable pub set_err_mask : SockId → ℕ → Option ℕ → World → Status × World
set_err_mask sid optlen user w = if not (optlen == sizeof_int) then (err einval, w) else elim user [
  | none ↦ (err efault, w)
  | some mask ↦ (ok tt, put_sock sid (record (w.socks sid) { err_mask = mask }) w)
]

-- CAN_RAW_LOOPBACK, with `user` the value.
unfoldable pub set_loopback : SockId → ℕ → Option ℕ → World → Status × World
set_loopback sid optlen user w = if not (optlen == sizeof_int) then (err einval, w) else elim user [
  | none ↦ (err efault, w)
  | some val ↦ (ok tt, put_sock sid (record (w.socks sid) { loopback = val }) w)
]

-- `struct _rtdm_setsockopt_args` with what the copy from user space brings.
pub data SockOpt : Type 0 where
  can_raw_filter : ℕ → Option ℕ → Option (List CanFilter) → SockOpt
  can_raw_err_filter can_raw_loopback : ℕ → Option ℕ → SockOpt
  other_option other_level : SockOpt

unfoldable pub rtcan_raw_setsockopt : Config → SockId → SockOpt → World → Run (Status × World)
rtcan_raw_setsockopt c sid (can_raw_filter optlen address user) w =
    set_filter c sid optlen address user w
rtcan_raw_setsockopt c sid (can_raw_err_filter optlen user) w =
    done (set_err_mask sid optlen user w)
rtcan_raw_setsockopt c sid (can_raw_loopback optlen user) w = done (set_loopback sid optlen user w)
rtcan_raw_setsockopt c sid other_option w = done (err enoprotoopt, w)
rtcan_raw_setsockopt c sid other_level w = done (err enoprotoopt, w)

-- The requests of `rtcan_raw_ioctl` on a socket; those on a device are `rtcan_raw_ioctl_dev`.
pub data Request : Type 0 where
  bind : ℕ → ℤ → Request
  setsockopt : SockOpt → Request
  take_timestamp : Bool → Request
  rcv_timeout snd_timeout : Option ℤ → Request

unfoldable pub rtcan_raw_ioctl : Config → SockId → Request → World → Run (Status × World)
rtcan_raw_ioctl c sid (bind family ifindex) w = rtcan_raw_bind c sid family ifindex w
rtcan_raw_ioctl c sid (setsockopt o) w = rtcan_raw_setsockopt c sid o w
rtcan_raw_ioctl c sid (take_timestamp on) w =
    done (ok tt, put_sock sid (record (w.socks sid) { get_timestamp = on }) w)
rtcan_raw_ioctl c sid (rcv_timeout none) w = done (err efault, w)
rtcan_raw_ioctl c sid (rcv_timeout (some t)) w =
    done (ok tt, put_sock sid (record (w.socks sid) { rx_timeout = t }) w)
rtcan_raw_ioctl c sid (snd_timeout none) w = done (err efault, w)
rtcan_raw_ioctl c sid (snd_timeout (some t)) w =
    done (ok tt, put_sock sid (record (w.socks sid) { tx_timeout = t }) w)
