-- ===== src/Can/Filter.antt =====
-- The reception lists of rtcan_raw_filter.c, and the test of a filter in rtcan_raw.c. An entry of a
-- list is an index into the array `receivers` of its device, and NULL is `none`.
pub mod Accept
pub mod Chain
pub mod Lists
pub mod Bind
pub mod Unbind
mod Tests
use rtdm_native.Prelude.{
  ℕ, zero, suc, ◌+◌, ◌-◌, bit_and, bit_or, Bool, true, false, not, ltb, ◌==◌, if◌then◌else◌, List,
  [], ◌∷◌, length, Option, none, some,
}
use rtdm_native.Prelude.Bits.{bit_clear}
use rtdm_native.Prelude.Int.{pos}
use rtdm_native.Rtdm.Errno.{ok, err, Status, enospc}
use rtdm_native.Memory.{update}
use rtdm_native.Can.Types.{
  Config, CanFilter, FilterList, null, no_filter, block, Recv, SockId, Socket, Device,
  can_inv_filter,
}
use rtdm_native.Can.Dev.{Devices, rtcan_dev_get_by_index, rtcan_dev_dereference}
use rtdm_native.Can.Run.{Run, done, fault, out_of_fuel, ◌>>=◌}

unfoldable pub rtcan_accept_msg : ℕ → CanFilter → Bool
rtcan_accept_msg can_id f =
    if not (bit_and f.can_mask can_inv_filter == 0)
    then not (bit_and can_id f.can_mask == f.can_id)
    else bit_and can_id f.can_mask == f.can_id

unfoldable pub rtcan_raw_mount_filter : CanFilter → CanFilter
rtcan_raw_mount_filter f =
    if not (bit_and f.can_id can_inv_filter == 0)
    then record {
      can_id = bit_clear f.can_id can_inv_filter;
      can_mask = bit_or f.can_mask can_inv_filter;
    }
    else record { can_id = f.can_id; can_mask = bit_clear f.can_mask can_inv_filter }

-- `rtcan_sock_has_filter`, `rtcan_sock_is_bound`
abbrev pub has_filter : Socket → Bool
has_filter s = elim (s.flistlen) [ none ↦ false | some n ↦ ltb 0 n ]

abbrev pub is_bound : Socket → Bool
is_bound s = elim (s.flistlen) [ none ↦ false | some n ↦ true ]

-- `sock->flistlen` where the socket is known to be bound.
abbrev pub bound_length : Socket → ℕ
bound_length s = elim (s.flistlen) [ none ↦ 0 | some n ↦ n ]

-- The interfaces of a binding: one, or all for index 0. The first index and how many.
abbrev pub first_index : ℕ → ℕ
first_index ifindex = if ifindex == 0 then 1 else ifindex

abbrev pub index_count : Config → ℕ → ℕ
index_count c ifindex = if ifindex == 0 then c.max_devices else 1

module _ (c : Config) where
  -- The loop of `rtcan_raw_check_filter` over the indices; `free` gives an index the entries that a
  -- new binding may use beside the device's free ones.
  pub check_devices : (ℕ → ℕ) → ℕ → ℕ → ℕ → Devices → Status
  check_devices free flistlen i zero ds = ok tt
  check_devices free flistlen i (suc n) ds =
      let rest = check_devices free flistlen (i + 1) n ds in
      elim (rtcan_dev_get_by_index c (pos i) ds) [
        | none ↦ rest
        | some (slot, d) ↦ if ltb (d.free_entries + free i) flistlen then err enospc else rest
      ]

  -- The entries that the old binding gives back on interface `i`.
  abbrev pub freed_entries : Socket → ℕ → ℕ
  freed_entries s i =
      if has_filter s
      then (if s.ifindex == 0 then bound_length s else if i == s.ifindex then bound_length s else 0)
      else 0

  -- The reference that a round takes it also drops, so the table stays.
  unfoldable pub rtcan_raw_check_filter : Socket → ℕ → FilterList → Devices → Status
  unfolding check_devices rtcan_dev_get_by_index
  rtcan_raw_check_filter s ifindex no_filter ds = ok tt
  rtcan_raw_check_filter s ifindex null ds =
      check_devices (freed_entries s) 1 (first_index ifindex) (index_count c ifindex) ds
  rtcan_raw_check_filter s ifindex (block a fs) ds =
      check_devices (freed_entries s) (length fs) (first_index ifindex) (index_count c ifindex) ds

-- `p->next` for a pointer that may be NULL is a fault.
abbrev pub deref : Option ℕ → Run ℕ
deref none = fault
deref (some a) = done a

-- The entry `a` is given a filter and its socket.
pub mount : SockId → CanFilter → ℕ → (ℕ → Recv) → ℕ → Recv
mount sid f a m = update m a (record (m a) { can_filter = f; match_count = 0; sock = some sid })

pub link : ℕ → Option ℕ → (ℕ → Recv) → ℕ → Recv
link a p m = update m a (record (m a) { next = p })

-- The filters behind the first: `last` moves on for each. The entries and the last one.
pub mount_rest : SockId → List CanFilter → ℕ → (ℕ → Recv) → Run ((ℕ → Recv) × ℕ)
mount_rest sid [] last m = done (m, last)
mount_rest sid (f ∷ fs) last m = do
  next ← deref ((m last).next)
  mount_rest sid fs next (mount sid (rtcan_raw_mount_filter f) next m)

-- The filters of a socket as they are mounted: one that lets all pass if it has none of its own.
pub mount_list : SockId → List CanFilter → ℕ → (ℕ → Recv) → Run ((ℕ → Recv) × ℕ)
mount_list sid [] first m = done (mount sid (record { can_id = 0; can_mask = 0 }) first m, first)
mount_list sid (f ∷ fs) first m =
    mount_rest sid fs first (mount sid (rtcan_raw_mount_filter f) first m)

abbrev pub entries : List CanFilter → ℕ
entries [] = 1
entries (f ∷ fs) = length (f ∷ fs)

-- The body of the loop of `rtcan_raw_add_filter`.
pub add_entries : SockId → List CanFilter → Device → Run Device
add_entries sid fs d = do
  first ← deref d.empty_list
  (m, last) ← mount_list sid fs first d.receivers
  done (record d {
    free_entries = d.free_entries - entries fs;
    empty_list = (m last).next;
    receivers = link last d.recv_list m;
    recv_list = some first;
  })

-- `while (next->sock != sock)`: the entry before the first of the socket, and that one.
pub search : ℕ → (ℕ → Recv) → SockId → Option ℕ → Option ℕ → Run (Option ℕ × ℕ)
search zero m sid first next = out_of_fuel
search (suc fuel) m sid first none = fault
search (suc fuel) m sid first (some a) =
    let rest = search fuel m sid (some a) ((m a).next) in
    elim ((m a).sock) [ none ↦ rest | some other ↦ if other == sid then done (first, a) else rest ]

-- `for (j = 1; j < flistlen; j++) last = last->next;`
pub go_on : ℕ → (ℕ → Recv) → ℕ → Run ℕ
go_on zero m last = done last
go_on (suc n) m last = do next ← deref ((m last).next); go_on n m next

-- `if (first) first->next = last->next; else dev->recv_list = last->next;`
pub detach : Option ℕ → Option ℕ → Device → Device
detach none p d = record d { recv_list = p }
detach (some a) p d = record d { receivers = link a p d.receivers }

-- The body of the loop of `rtcan_raw_remove_filter`.
pub remove_entries : Config → SockId → ℕ → Device → Run Device
remove_entries c sid flistlen d = do
  (first, next) ← search (c.max_receivers + 1) d.receivers sid none d.recv_list
  last ← go_on (flistlen - 1) d.receivers next
  let d' = detach first ((d.receivers last).next) d
  done (record d' {
    receivers = link last d.empty_list d'.receivers;
    empty_list = some next;
    free_entries = d.free_entries + flistlen;
  })

module _ (c : Config) where
  -- `for (i = begin; i <= end; i++)` over the devices that are there, each with a reference.
  pub each_device : (Device → Run Device) → ℕ → ℕ → Devices → Run Devices
  each_device body i zero ds = done ds
  each_device body i (suc n) ds = elim (rtcan_dev_get_by_index c (pos i) ds) [
    | none ↦ each_device body (i + 1) n ds
    | some (slot, d) ↦ elim (body d) [
      | done d' ↦ each_device body (i + 1) n (update ds slot (some (rtcan_dev_dereference d')))
      | fault ↦ fault
      | out_of_fuel ↦ out_of_fuel
    ]
  ]

  -- The list that is mounted; `none` for RTCAN_FLIST_NO_FILTER.
  abbrev pub mounted : FilterList → Option (List CanFilter)
  mounted null = some []
  mounted no_filter = none
  mounted (block a fs) = some fs

  -- The number of entries that each device holds for the socket, and the table.
  unfoldable pub rtcan_raw_add_filter : SockId → Socket → ℕ → Devices → Run (ℕ × Devices)
  rtcan_raw_add_filter sid s ifindex ds = elim (mounted s.flist) [
    | none ↦ done (0, ds)
    | some fs ↦ do
      ds' ← each_device (add_entries sid fs) (first_index ifindex) (index_count c ifindex) ds
      done (entries fs, ds')
  ]

  unfoldable pub rtcan_raw_remove_filter : SockId → Socket → Devices → Run Devices
  rtcan_raw_remove_filter sid s ds =
      if has_filter s
      then each_device (remove_entries c sid (bound_length s)) (first_index s.ifindex)
          (index_count c s.ifindex) ds
      else done ds
