-- ===== src/Can/Recvmsg/Roundtrip.antt =====
-- `rtcan_raw_recvmsg` against the queue of messages that `rtcan_rcv_deliver` builds.
use rtdm_native.Prelude.{
  ℕ, ◌-◌, ◌≤◌, ◌≡◌, ◌≢◌, subst, inl, inr, ◌⊎◌, ◌∙◌, arith, bit_and, Bool, true, false, not, ◌==◌,
  if◌then◌else◌, List, ◌++◌, replicate, length, length-append, Option, some,
}
use rtdm_native.Prelude.Int.{ℤ, negsuc}
use rtdm_native.Rtdm.Errno.{Status, ok}
use rtdm_native.Can.Types.{Config, Socket, rtcan_has_timestamp, rtcan_has_no_timestamp}
use rtdm_native.Can.Ring.Frame.{Queue, Holds}
use rtdm_native.Can.Recvmsg.{
  MsgFlags, Msghdr, Reply, Fetched, check_msghdr, rtcan_raw_recvmsg, received, fetch, take_message,
  reply,
}
use rtdm_native.Can.Recvmsg.Decode.{
  Message, message_bytes, length-message_bytes, IsMessage, Found, fetch-Found, fetch-Found_unwanted,
}

module _ (c : Config) where
  -- The caller's view of a message.
  pub record Matches (m : Message) (msg : Msghdr) (r : Reply) : Type 0 where
    pub can_id : r.frame.can_id ≡ m.can_id
    pub dlc : r.frame.can_dlc ≡ bit_and m.can_dlc rtcan_has_no_timestamp
    pub payload : r.frame.payload ≡ m.payload ++ replicate (8 - length m.payload) 0
    pub ifindex : r.can_ifindex ≡ (if msg.msg_namelen == 0 then Option.none else some m.can_ifindex)

  reply-Matches :
      {buf : ℕ → ℕ} {stop : ℕ} (m : Message) (msg : Msghdr) (f : Fetched) {rest : List ℕ}
      → Found c buf stop m f rest
      → Matches m msg (reply c msg f)
  unfolding reply
  reply-Matches m msg f found = record {
    can_id = found.can_id;
    dlc = found.dlc;
    payload = found.payload;
    ifindex = ground (arith, found.ifindex);
  }

  -- The ring after the message: it starts behind it, or as before if the caller peeks.
  take_message-Queue :
      (peek : Bool) (s : Socket) (f : Fetched) (xs rest : List ℕ)
      → length rest ≤ length xs
      → Queue c s xs
      → Holds c s.recv_buf s.recv_tail f.index rest
      → Queue c (take_message c peek s f) (if peek then xs else rest)
  unfolding take_message
  take_message-Queue true s f xs rest le q h = record { holds = q.holds; room = q.room }
  take_message-Queue false s f xs rest le q h = record { holds = h; room = omega (arith, q.room) }

  module _ (down : ℤ → Socket → Option (Status × Socket)) where
    -- What a call leaves: the reply with its message, and the ring.
    abbrev pub Delivers : MsgFlags → Msghdr → Socket → Message → List ℕ → List ℕ → Type 0
    Delivers flags msg s m xs rest =
        (r : Reply) × (s' : Socket) × (rtcan_raw_recvmsg c down flags msg s ≡ some (ok (16, r), s'))
        × Matches m msg r
        × Queue c s' (if flags.peek then xs else rest)

    module _ (flags : MsgFlags) (msg : Msghdr) {s s' : Socket}
        (sane : check_msghdr flags msg ≡ ok tt)
        (woken : down (if flags.dontwait then negsuc 0 else s.rx_timeout) s ≡ some (ok tt, s'))
        (m : Message) (rest : List ℕ) (v : IsMessage m)
        (q : Queue c s' (message_bytes m ++ rest)) where
      wants : Bool
      wants = not (msg.msg_controllen == 0)

      found_at : Fetched
      found_at = fetch c wants s'.recv_buf s'.recv_head

      runs :
          rtcan_raw_recvmsg c down flags msg s
          ≡ some (ok (16, reply c msg found_at), take_message c flags.peek s' found_at)
      unfolding rtcan_raw_recvmsg received found_at wants
      runs = rw (sane, rtcan_raw_recvmsg) (rw (woken, rtcan_raw_recvmsg))

      finish :
          (left : List ℕ)
          → length left ≤ length (message_bytes m ++ rest)
          → Found c s'.recv_buf s'.recv_tail m found_at left
          → Delivers flags msg s m (message_bytes m ++ rest) left
      finish left le found = (
        reply c msg found_at,
        take_message c flags.peek s' found_at,
        runs,
        reply-Matches m msg found_at found,
        take_message-Queue flags.peek s' found_at (message_bytes m ++ rest) left le q found.behind,
      )

      -- A call whose header is sane, and that the semaphore lets through, returns 16 and the first
      -- message of the ring, with its CAN ID, DLC, payload and interface; the message is gone from
      -- the ring, or still there if the caller peeks. The message has no timestamp, or the caller
      -- has a buffer for it.
      pub recvmsg-Delivers :
          (msg.msg_controllen ≢ 0) ⊎ (bit_and m.can_dlc rtcan_has_timestamp ≡ 0)
          → Delivers flags msg s m (message_bytes m ++ rest) rest
      unfolding found_at wants
      recvmsg-Delivers w =
          finish rest (omega (arith, length-append (message_bytes m) rest))
            (fetch-Found c (not (msg.msg_controllen == 0)) m rest v (as_test w) q.holds).0
        where
          as_test :
              (msg.msg_controllen ≢ 0) ⊎ (bit_and m.can_dlc rtcan_has_timestamp ≡ 0)
              → (not (msg.msg_controllen == 0) ≡ true) ⊎ (bit_and m.can_dlc rtcan_has_timestamp ≡ 0)
          as_test (inl n) = inl (ground arith)
          as_test (inr n) = inr n

      -- A caller without a buffer for the timestamp of a message that has one leaves its 8 bytes at
      -- the head of the ring, in front of the next message.
      pub recvmsg-leaves-timestamp :
          msg.msg_controllen ≡ 0
          → bit_and m.can_dlc rtcan_has_timestamp ≢ 0
          → Delivers flags msg s m (message_bytes m ++ rest) (m.timestamp ++ rest)
            × (length m.timestamp ≡ 8)
      unfolding found_at wants
      recvmsg-leaves-timestamp none_wanted stamped = (
        finish (m.timestamp ++ rest)
            (omega (
              arith,
              length-append m.timestamp rest,
              length-append (message_bytes m) rest,
              length-message_bytes m,
            ))
            (subst
              (λ b.
                Found c s'.recv_buf s'.recv_tail m (fetch c b s'.recv_buf s'.recv_head)
                  (m.timestamp ++ rest))
              (ground arith) (fetch-Found_unwanted c m rest v q.holds)),
        v.timestamp ∙ ground arith,
      )
