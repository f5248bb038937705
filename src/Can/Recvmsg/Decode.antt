-- ===== src/Can/Recvmsg/Decode.antt =====
-- The bytes of a queued message, and what a read of them finds.
use rtdm_native.Prelude.{
  ℕ, ◌+◌, ◌-◌, ◌≤◌, ◌<◌, ◌≡◌, ◌≢◌, refl, sym, subst, inl, inr, ◌⊎◌, arith, bit_and, ◌^◌, Bool, true,
  false, ◌&&◌, Bool-cases, ◌==◌, if◌then◌else◌, List, [], ◌∷◌, ◌++◌, replicate, length,
  length-append,
}
use rtdm_native.Can.Types.{Config, can_rtr_flag, rtcan_has_timestamp, rtcan_has_no_timestamp}
use rtdm_native.Can.Ring.{bytes_u32, u32_of_bytes, memcpy_from_ring_buf, wrap_index}
use rtdm_native.Can.Ring.Frame.{Holds, read_bytes, read_byte}
use rtdm_native.Can.Recvmsg.{Fetched, fetch, fetch_payload, fetch_timestamp, payload_size}
use mathlib.Core.List.{append_assoc}

pub u32_round_trip : (x : ℕ) → x < 2 ^ 32 → u32_of_bytes (bytes_u32 x) ≡ x
unfolding u32_of_bytes bytes_u32
u32_round_trip x h = omega arith

length-bytes_u32 : (x : ℕ) → length (bytes_u32 x) ≡ 4
unfolding bytes_u32
length-bytes_u32 x = refl

-- A message in the ring: the CAN ID, the interface, the marked DLC, the payload and the timestamp.
pub record Message : Type 0 where
  pub can_id : ℕ
  pub can_ifindex : ℕ
  pub can_dlc : ℕ
  pub payload : List ℕ
  pub timestamp : List ℕ

unfoldable pub message_bytes : Message → List ℕ
message_bytes m = bytes_u32 m.can_id ++ (m.can_ifindex ∷ m.can_dlc ∷ (m.payload ++ m.timestamp))

pub length-message_bytes :
    (m : Message) → length (message_bytes m) ≡ 6 + length m.payload + length m.timestamp
unfolding message_bytes bytes_u32
length-message_bytes m = omega (arith, length-append m.payload m.timestamp)

-- The data bytes that follow the header: none in a remote request, else as many as the DLC says.
abbrev pub data_size : ℕ → ℕ → ℕ
data_size can_id dlc = if bit_and can_id can_rtr_flag == 0 then dlc else 0

pub record IsMessage (m : Message) : Type 0 where
  pub id : m.can_id < 2 ^ 32
  pub dlc : bit_and m.can_dlc rtcan_has_no_timestamp ≤ 8
  pub payload : length m.payload ≡ data_size m.can_id (bit_and m.can_dlc rtcan_has_no_timestamp)
  pub timestamp : length m.timestamp ≡ (if bit_and m.can_dlc rtcan_has_timestamp == 0 then 0 else 8)

module _ (c : Config) where
  -- What the reader finds of the message, and where it stops.
  pub record Found (buf : ℕ → ℕ) (stop : ℕ) (m : Message) (f : Fetched) (rest : List ℕ)
      : Type 0 where
    pub can_id : f.frame.can_id ≡ m.can_id
    pub dlc : f.frame.can_dlc ≡ bit_and m.can_dlc rtcan_has_no_timestamp
    pub payload : f.frame.payload ≡ m.payload ++ replicate (8 - length m.payload) 0
    pub ifindex : f.can_ifindex ≡ m.can_ifindex
    pub marked : f.can_dlc ≡ m.can_dlc
    pub behind : Holds c buf stop f.index rest

  empty_of_length : (xs : List ℕ) → length xs ≡ 0 → xs ≡ []
  empty_of_length [] h = refl
  empty_of_length (x ∷ xs) h = absurd (omega arith)

  -- `e` is the outcome of a copy of the bytes `xs`, which leaves the ring at `ys`.
  abbrev Reads : (ℕ → ℕ) → ℕ → List ℕ × ℕ → List ℕ → List ℕ → Type 0
  Reads buf stop e xs ys = (e.0 ≡ xs) × Holds c buf stop (e.1) ys

  Reads-of_bytes :
      {buf : ℕ → ℕ} {stop i : ℕ} (n : ℕ) (xs ys : List ℕ)
      → length xs ≡ n
      → Holds c buf stop i (xs ++ ys)
      → Reads buf stop (memcpy_from_ring_buf c buf i n) xs ys
  Reads-of_bytes n xs ys e h = rw (← e, (read_bytes c xs ys h).0) (refl, (read_bytes c xs ys h).1)

  Reads-of_empty :
      {buf : ℕ → ℕ} {stop i : ℕ} (xs ys : List ℕ)
      → length xs ≡ 0
      → Holds c buf stop i (xs ++ ys)
      → Reads buf stop ([], i) xs ys
  Reads-of_empty {buf} {stop} {i} xs ys e h = (
    sym (empty_of_length xs e),
    subst (λ l. Holds c buf stop i (l ++ ys)) (empty_of_length xs e) h,
  )

  payload_size-small : (dlc : ℕ) → dlc ≤ 8 → payload_size dlc ≡ dlc
  unfolding payload_size
  payload_size-small dlc h = ground arith

  fetch_payload-Reads :
      {buf : ℕ → ℕ} {stop i : ℕ} (id dlc : ℕ) (xs ys : List ℕ)
      → dlc ≤ 8
      → length xs ≡ data_size id dlc
      → Holds c buf stop i (xs ++ ys)
      → Reads buf stop (fetch_payload c buf i id (payload_size dlc)) xs ys
  unfolding fetch_payload
  fetch_payload-Reads id dlc xs ys small e h =
      rw (payload_size-small dlc small) (elim (Bool-cases (bit_and id can_rtr_flag == 0)) [
        | inl data_frame ↦ elim (Bool-cases (dlc == 0)) [
          | inl unused ↦ rw (data_frame, unused) (Reads-of_empty xs ys (ground arith) h)
          | inr used ↦ rw (data_frame, used) (Reads-of_bytes dlc xs ys (ground arith) h)
        ]
        | inr remote ↦ rw remote (Reads-of_empty xs ys (ground arith) h)
      ])

  -- Without a timestamp there is nothing to skip; one that the caller wants is read.
  fetch_timestamp-Reads :
      {buf : ℕ → ℕ} {stop i : ℕ} (wants : Bool) (d : ℕ) (xs ys : List ℕ)
      → length xs ≡ (if bit_and d rtcan_has_timestamp == 0 then 0 else 8)
      → (wants ≡ true) ⊎ (bit_and d rtcan_has_timestamp ≡ 0)
      → Holds c buf stop i (xs ++ ys)
      → Holds c buf stop ((fetch_timestamp c wants buf i d).1) ys
        × ((bit_and d rtcan_has_timestamp ≢ 0) → (fetch_timestamp c wants buf i d).0 ≡ xs)
  unfolding fetch_timestamp
  fetch_timestamp-Reads wants d xs ys e w h =
      elim (Bool-cases (bit_and d rtcan_has_timestamp == 0)) [
        | inl absent ↦
            rw (absent, not_and wants)
              ((Reads-of_empty xs ys (ground arith) h).1, λ present. ground arith)
        | inr present ↦
            rw (present, wanted w present)
              (
                (Reads-of_bytes 8 xs ys (ground arith) h).1,
                λ _. (Reads-of_bytes 8 xs ys (ground arith) h).0,
              )
      ]
    where
      not_and : (b : Bool) → (b && false) ≡ false
      not_and true = refl
      not_and false = refl

      wanted :
          (wants ≡ true) ⊎ (bit_and d rtcan_has_timestamp ≡ 0)
          → (bit_and d rtcan_has_timestamp == 0) ≡ false
          → wants ≡ true
      wanted (inl yes_please) p = yes_please
      wanted (inr none_there) p = ground arith

  -- The header of a queued message, as the first reads find it.
  pub record Header (buf : ℕ → ℕ) (stop i : ℕ) (m : Message) (rest : List ℕ) : Type 0 where
    pub can_id : u32_of_bytes ((memcpy_from_ring_buf c buf i 4).0) ≡ m.can_id
    pub ifindex : buf ((memcpy_from_ring_buf c buf i 4).1) ≡ m.can_ifindex
    pub marked : buf (wrap_index c ((memcpy_from_ring_buf c buf i 4).1 + 1)) ≡ m.can_dlc
    pub behind :
        Holds c buf stop
          (wrap_index c (wrap_index c ((memcpy_from_ring_buf c buf i 4).1 + 1) + 1))
          (m.payload ++ (m.timestamp ++ rest))

  read-Header :
      {buf : ℕ → ℕ} {stop i : ℕ} (m : Message) (rest : List ℕ)
      → m.can_id < 2 ^ 32
      → Holds c buf stop i (message_bytes m ++ rest)
      → Header buf stop i m rest
  unfolding message_bytes
  read-Header {buf} {stop} {i} m rest small h =
      let after = (m.payload ++ m.timestamp) ++ rest in
      let h' = subst (Holds c buf stop i) (append_assoc (bytes_u32 m.can_id) _ rest) h in
      let id = Reads-of_bytes 4 (bytes_u32 m.can_id) _ (length-bytes_u32 m.can_id) h' in
      let face = read_byte c m.can_ifindex (m.can_dlc ∷ after) id.1 in
      let dlc = read_byte c m.can_dlc after face.1 in
      record {
        can_id = rw (id.0) (u32_round_trip m.can_id small);
        ifindex = face.0;
        marked = dlc.0;
        behind = subst (Holds c buf stop _) (append_assoc m.payload m.timestamp rest) dlc.1;
      }

  -- A read of a queued message finds it, and stops behind it if the message has no timestamp or the
  -- caller wants it.
  pub fetch-Found :
      {buf : ℕ → ℕ} {stop i : ℕ} (wants : Bool) (m : Message) (rest : List ℕ)
      → IsMessage m
      → (wants ≡ true) ⊎ (bit_and m.can_dlc rtcan_has_timestamp ≡ 0)
      → Holds c buf stop i (message_bytes m ++ rest)
      → Found buf stop m (fetch c wants buf i) rest
        × ((bit_and m.can_dlc rtcan_has_timestamp ≢ 0)
            → (fetch c wants buf i).timestamp ≡ m.timestamp)
  unfolding fetch
  fetch-Found {buf} {stop} {i} wants m rest v w h =
      let head = read-Header m rest v.id h in
      let body =
        fetch_payload-Reads m.can_id (bit_and m.can_dlc rtcan_has_no_timestamp) m.payload
          (m.timestamp ++ rest) v.dlc v.payload head.behind in
      let stamp = fetch_timestamp-Reads wants m.can_dlc m.timestamp rest v.timestamp w body.1 in
      rw (head.can_id, head.ifindex, head.marked)
        (
          record {
            can_id = refl;
            dlc = refl;
            payload = rw (body.0) refl;
            ifindex = refl;
            marked = refl;
            behind = stamp.0;
          },
          stamp.1,
        )

  -- A caller that does not want the timestamp of a message that has one leaves it in the ring.
  pub fetch-Found_unwanted :
      {buf : ℕ → ℕ} {stop i : ℕ} (m : Message) (rest : List ℕ)
      → IsMessage m
      → Holds c buf stop i (message_bytes m ++ rest)
      → Found buf stop m (fetch c false buf i) (m.timestamp ++ rest)
  unfolding fetch fetch_timestamp
  fetch-Found_unwanted {buf} {stop} {i} m rest v h =
      let head = read-Header m rest v.id h in
      let body =
        fetch_payload-Reads m.can_id (bit_and m.can_dlc rtcan_has_no_timestamp) m.payload
          (m.timestamp ++ rest) v.dlc v.payload head.behind in
      rw (head.can_id, head.ifindex, head.marked)
        (record {
          can_id = refl;
          dlc = refl;
          payload = rw (body.0) refl;
          ifindex = refl;
          marked = refl;
          behind = body.1;
        })
