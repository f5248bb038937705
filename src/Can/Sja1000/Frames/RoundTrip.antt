-- ===== src/Can/Sja1000/Frames/RoundTrip.antt =====
-- What `rtcan_sja_start_xmit` writes and `rtcan_sja_rx_interrupt` reads again.
use rtdm_native.Prelude.{
  ℕ, zero, suc, ◌+◌, ◌*◌, ◌/◌, ◌%◌, ◌^◌, ◌≤◌, ◌<◌, ◌≡◌, refl, ap, ◌∙◌, ap₂, bit_and, bit_or, ◌==◌,
  if◌then◌else◌, Bool, Bool-cases, inl, inr, true, false, List, [], ◌∷◌, take, length, length-take,
  arith,
}
use rtdm_native.Prelude.Bits.{bit_or_flag}
use rtdm_native.Can.Types.{CanFrame, Skb, can_eff_flag, can_rtr_flag, empty_rb_frame_size}
use rtdm_native.Can.Receive.{overwrite}
use rtdm_native.Can.Sja1000.Chip.{
  Sja, RegisterFile, read_reg, write_reg, has, held, sja_id1, sja_id2, sja_id3, sja_id4, sja_fir,
  sja_data_sff, sja_data_eff,
}
use rtdm_native.Can.Sja1000.Frames.Fields.{
  id_of, id_limit, ext_id, std_id, has-eff, has-rtr, fir_of, fir-written, fir-eff, fir-rtr, fir-dlc,
}
use rtdm_native.Can.Sja1000.Frames.{
  read_data, write_data, data_size, read_id, rtcan_sja_rx_interrupt, write_id, rtcan_sja_start_xmit,
}

-- Every entry is a byte.
abbrev pub AreBytes : List ℕ → Type 0
AreBytes [] = 0 ≤ 0
AreBytes (b ∷ bs) = (b < 256) × AreBytes bs

pub take-AreBytes : (n : ℕ) (bs : List ℕ) → AreBytes bs → AreBytes (take n bs)
take-AreBytes zero bs h = omega arith
take-AreBytes (suc n) [] h = h
take-AreBytes (suc n) (b ∷ bs) h = (h.0, take-AreBytes n bs h.1)

module _ (before : RegisterFile) where
  held-write_data :
      (reg base : ℕ) (bs : List ℕ) (s : Sja)
      → reg < base
      → held before ((write_data base bs s).written) reg ≡ held before (s.written) reg
  unfolding write_data write_reg
  held-write_data reg base [] s h = refl
  held-write_data reg base (b ∷ bs) s h =
      held-write_data reg (base + 1) bs (write_reg base b s) (omega arith)
      ∙ unfold held in ground arith

  read_data-write_data :
      (base : ℕ) (bs : List ℕ) (s : Sja)
      → AreBytes bs
      → read_data (held before ((write_data base bs s).written)) base (length bs) ≡ bs
  unfolding write_data read_data read_reg
  read_data-write_data base [] s h = refl
  read_data-write_data base (b ∷ bs) s h =
      ap₂ ◌∷◌
        (ap (λ (v : ℕ). v % 256)
            (held-write_data base (base + 1) bs (write_reg base b s) (omega arith))
          ∙ unfold held write_reg in ground (arith, h.0))
        (read_data-write_data (base + 1) bs (write_reg base b s) h.1)

pub read_data-agree :
    (regs other : RegisterFile) (base n : ℕ)
    → ((r : ℕ) → base ≤ r → regs r ≡ other r)
    → read_data regs base n ≡ read_data other base n
unfolding read_data read_reg
read_data-agree regs other base zero h = refl
read_data-agree regs other base (suc n) h = rw (h base (omega arith)) (
    ap (λ rest. other base % 256 ∷ rest)
      (read_data-agree regs other (base + 1) n (λ r l. h r (omega arith))))

-- The ID from registers that hold what `write_id` writes.
abbrev data_base : Bool → ℕ
data_base ext = if ext then sja_data_eff else sja_data_sff

module _ (before regs : RegisterFile) (s : Sja) (fir : ℕ) where
  -- The values of the four registers, or of the two.
  ext_values :
      (rtr : Bool) (n : ℕ)
      → n < 2 ^ 29
      → (r : ℕ)
      → held before ((write_id (id_of true rtr n) s).written) r ≡ (
          if 20 == r
          then n % 2 ^ 5 * 2 ^ 3
          else if 19 == r
          then n / 2 ^ 5 % 256
          else if 18 == r
          then n / 2 ^ 13 % 256
          else if 17 == r
          then n / 2 ^ 21
          else held before (s.written) r)
  unfolding write_id write_reg held
  ext_values rtr n h r = ground (arith, has-eff true rtr n h)

  std_values :
      (rtr : Bool) (n : ℕ)
      → n < 2 ^ 11
      → (r : ℕ)
      → held before ((write_id (id_of false rtr n) s).written) r ≡ (
          if 18 == r
          then n % 2 ^ 3 * 2 ^ 5
          else if 17 == r
          then n / 2 ^ 3
          else held before (s.written) r)
  unfolding write_id write_reg held
  std_values rtr n h r = ground (arith, has-eff false rtr n h)

  read_id-write_id :
      (ext rtr : Bool) (n : ℕ)
      → n < id_limit ext
      → has fir 0x80 ≡ ext
      → ((r : ℕ)
          → 17 ≤ r
          → r < data_base ext
          → regs r ≡ held before ((write_id (id_of ext rtr n) s).written) r)
      → read_id regs fir ≡ id_of ext false n
  unfolding read_id read_reg
  read_id-write_id true rtr n h e agree = ground (
    arith,
    agree 17 (omega arith) (omega arith) ∙ ext_values rtr n h 17,
    agree 18 (omega arith) (omega arith) ∙ ext_values rtr n h 18,
    agree 19 (omega arith) (omega arith) ∙ ext_values rtr n h 19,
    agree 20 (omega arith) (omega arith) ∙ ext_values rtr n h 20,
    ext_id n h,
  )
  read_id-write_id false rtr n h e agree = ground (
    arith,
    agree 17 (omega arith) (omega arith) ∙ std_values rtr n h 17,
    agree 18 (omega arith) (omega arith) ∙ std_values rtr n h 18,
    std_id n h,
  )

-- A frame as the bus carries it: its ID in range, a DLC of four bits, 8 bytes of data.
pub record IsFrame (ext rtr : Bool) (ident : ℕ) (frame : CanFrame) : Type 0 where
  pub in_range : ident < id_limit ext
  pub id : frame.can_id ≡ id_of ext rtr ident
  pub dlc : frame.can_dlc < 16
  pub full : length frame.payload ≡ 8
  pub bytes : AreBytes frame.payload

-- The frame in a socket buffer whose bytes were `area`.
abbrev pub skb_of : Bool → CanFrame → ℕ → List ℕ → Skb
skb_of rtr frame ifindex area =
    let size = data_size frame.can_dlc in
    record {
      rb_frame_size = if rtr then empty_rb_frame_size else empty_rb_frame_size + size;
      rb_frame = record {
        can_id = frame.can_id;
        can_ifindex = ifindex;
        can_dlc = frame.can_dlc;
        area = if rtr then area else overwrite 0 (take size frame.payload) area;
      };
    }

-- What the registers hold after a transmission was started.
abbrev pub sent : RegisterFile → CanFrame → Sja → RegisterFile
sent before frame s = held before ((rtcan_sja_start_xmit frame s).1.written)

module _ (before : RegisterFile) (ext rtr : Bool) (ident : ℕ) (frame : CanFrame) (s : Sja)
    (f : IsFrame ext rtr ident frame) where
  frame-eff : has frame.can_id can_eff_flag ≡ ext
  frame-eff = ap (λ (v : ℕ). has v can_eff_flag) (f.id) ∙ has-eff ext rtr ident (f.in_range)

  frame-rtr : has frame.can_id can_rtr_flag ≡ rtr
  frame-rtr = ap (λ (v : ℕ). has v can_rtr_flag) (f.id) ∙ has-rtr ext rtr ident (f.in_range)

  sent-fir : read_reg (sent before frame s) sja_fir ≡ fir_of ext rtr frame.can_dlc
  unfolding rtcan_sja_start_xmit read_reg held write_reg
  sent-fir =
      rw (frame-eff, frame-rtr)
        (ap (λ (v : ℕ). v % 256 % 256) (fir-written ext rtr (frame.can_dlc) (f.dlc))
          ∙ ground (arith, f.dlc))

  data_bytes : List ℕ
  data_bytes = take (data_size frame.can_dlc) frame.payload

  -- The ID and the data as they are written before the frame information and the command.
  body : Sja
  unfolding data_bytes
  body =
      if rtr
      then write_id frame.can_id s
      else write_data (data_base ext) data_bytes (write_id frame.can_id s)

  sent-body : (r : ℕ) → 17 ≤ r → sent before frame s r ≡ held before (body.written) r
  unfolding body rtcan_sja_start_xmit held write_reg
  sent-body r l = rw (frame-eff, frame-rtr) ground arith

  -- The data leaves the ID alone.
  sent-below :
      (r : ℕ)
      → 17 ≤ r
      → r < data_base ext
      → sent before frame s r ≡ held before ((write_id frame.can_id s).written) r
  unfolding body
  sent-below r l u = sent-body r l ∙ elim (Bool-cases rtr) [
    | inl e ↦ rw e refl
    | inr e ↦ rw e (held-write_data before r (data_base ext) data_bytes (write_id frame.can_id s) u)
  ]

  sent-id : read_id (sent before frame s) (fir_of ext rtr frame.can_dlc) ≡ id_of ext false ident
  sent-id =
      read_id-write_id before (sent before frame s) s (fir_of ext rtr frame.can_dlc) ext rtr ident
        (f.in_range) (fir-eff ext rtr frame.can_dlc (f.dlc))
        (λ r l u. sent-below r l u ∙ ap (λ (v : ℕ). held before ((write_id v s).written) r) (f.id))

  sent-data :
      rtr ≡ false
      → read_data (sent before frame s) (data_base ext) (data_size frame.can_dlc)
        ≡ take (data_size frame.can_dlc) frame.payload
  unfolding body data_bytes
  sent-data e =
      read_data-agree (sent before frame s) (held before body.written) (data_base ext) size
        (λ r l. sent-body r (ground arith))
      ∙ rw e (
          ap (read_data (held before data_only.written) (data_base ext)) size-length
          ∙ read_data-write_data before (data_base ext) data_bytes (write_id frame.can_id s)
              (take-AreBytes size frame.payload (f.bytes)))
    where
      size : ℕ
      size = data_size frame.can_dlc

      data_only : Sja
      data_only = write_data (data_base ext) data_bytes (write_id frame.can_id s)

      size-length : size ≡ length data_bytes
      size-length = ground (arith, length-take size frame.payload, f.full)

  id-rtr : bit_or (id_of ext false ident) can_rtr_flag ≡ id_of ext true ident
  id-rtr = ground (arith, bit_or_flag 30 (if ext then 1 else 0) ident, f.in_range)

  pub rx-start_xmit :
      (t : Sja) (skb : Skb)
      → (rtcan_sja_rx_interrupt (sent before frame s) t skb).1
        ≡ skb_of rtr frame t.dev.ifindex skb.rb_frame.area
  unfolding rtcan_sja_rx_interrupt
  rx-start_xmit t skb =
      rw
        (
          sent-fir,
          fir-rtr ext rtr frame.can_dlc (f.dlc),
          fir-eff ext rtr frame.can_dlc (f.dlc),
          fir-dlc ext rtr frame.can_dlc (f.dlc),
          sent-id,
        )
        elim (Bool-cases rtr) [
          | inl e ↦ ground (arith, e, id-rtr, f.id)
          | inr e ↦ ground (arith, e, sent-data e, f.id)
        ]

-- Only the registers of the receive buffer, 16 and above, count for the frame that is read.
pub rx-agree :
    (regs other : RegisterFile) (t : Sja) (skb : Skb)
    → ((r : ℕ) → 16 ≤ r → regs r ≡ other r)
    → rtcan_sja_rx_interrupt regs t skb ≡ rtcan_sja_rx_interrupt other t skb
unfolding rtcan_sja_rx_interrupt read_id read_reg
rx-agree regs other t skb agree =
    let size = data_size (bit_and (other sja_fir % 256) 0x0F) in
    ground (
      arith,
      agree sja_fir (omega arith),
      agree sja_id1 (omega arith),
      agree sja_id2 (omega arith),
      agree sja_id3 (omega arith),
      agree sja_id4 (omega arith),
      read_data-agree regs other sja_data_eff size (λ r l. agree r (omega (arith, l))),
      read_data-agree regs other sja_data_sff size (λ r l. agree r (omega (arith, l))),
    )
