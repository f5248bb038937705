-- ===== src/Can/Filter/Bind.antt =====
-- `rtcan_raw_add_filter` on one device: what a binding does to the two lists.
use rtdm_native.Prelude.{
  ℕ, ◌-◌, ◌≡◌, refl, ◌∙◌, ◌==◌, arith, inl, inr, Bool-cases, false, if◌then◌else◌, List, [], ◌∷◌,
  ◌++◌, length, length-append, Option, none, some,
}
use rtdm_native.Can.Types.{CanFilter, Device, SockId}
use rtdm_native.Can.Filter.{mount, mount_list, entries, add_entries, link, rtcan_raw_mount_filter}
use rtdm_native.Can.Filter.Chain.{
  Entries, has, Seg, Distinct, Apart, last, Seg-frame, Seg-append, Seg-split, Seg-link_last,
  Seg-link_other, next-last, has-last, Distinct-append, Distinct-split, has-append,
}
use rtdm_native.Can.Filter.Lists.{
  IsWf, effective, Held, mount-next, mount_all, mount_all-next, mount_all-other, mount_all-Held,
  mount_rest-runs,
}
use rtdm_native.Can.Run.{done}

module _ (sid : SockId) where
  mount_list-runs :
      (fs : List CanFilter) (a : ℕ) (xs : List ℕ) (p q : Option ℕ) (m : Entries)
      → length (effective fs) ≡ length (a ∷ xs)
      → Seg m p (a ∷ xs) q
      → mount_list sid fs a m ≡ done (mount_all sid (effective fs) (a ∷ xs) m, last a xs)
  unfolding mount_list mount_all rtcan_raw_mount_filter
  mount_list-runs [] a [] p q m e s = refl
  mount_list-runs [] a (x ∷ xs) p q m e s = absurd (omega arith)
  mount_list-runs (f ∷ fs) a xs p q m e s =
      mount_rest-runs sid fs a xs p q m' (omega arith)
        (Seg-frame m m' p q (a ∷ xs) (λ b h. mount-next sid (rtcan_raw_mount_filter f) a b m) s)
    where
      m' : Entries
      m' = mount sid (rtcan_raw_mount_filter f) a m

  link-other : (p : Option ℕ) (a b : ℕ) (m : Entries) → (a == b) ≡ false → link a p m b ≡ m b
  unfolding link
  link-other p a b m h = ground arith

  Held-link :
      (p : Option ℕ) (a : ℕ) (m : Entries) (fs : List CanFilter) (xs : List ℕ)
      → Held m sid fs xs
      → Held (link a p m) sid fs xs
  unfolding link
  Held-link p a m [] [] h = h
  Held-link p a m [] (x ∷ xs) h = h
  Held-link p a m (f ∷ fs) [] h = h
  Held-link p a m (f ∷ fs) (x ∷ xs) h =
      (ground (arith, h.0), ground (arith, h.1), ground (arith, h.2), Held-link p a m fs xs h.3)

  entries-effective : (fs : List CanFilter) → entries fs ≡ length (effective fs)
  entries-effective [] = refl
  entries-effective (f ∷ fs) = refl

  -- A binding takes the first entries of the empty list, as many as the socket has filters (one if it
  -- has none), gives them the filters in the order of the list, as `rtcan_raw_mount_filter` makes them,
  -- and puts them in front of the reception list. The device stays well-formed, and no other
  -- entry changes.
  pub add_entries-binds :
      (fs : List CanFilter) (d : Device) (rs es xs : List ℕ) (a : ℕ)
      → IsWf d rs ((a ∷ xs) ++ es)
      → length (effective fs) ≡ length (a ∷ xs)
      → (d' : Device) × (add_entries sid fs d ≡ done d')
        × IsWf d' ((a ∷ xs) ++ rs) es
        × Held d'.receivers sid (effective fs) (a ∷ xs)
        × ((b : ℕ) → d'.receivers b ≡ (if has b (a ∷ xs) then d'.receivers b else d.receivers b))
  add_entries-binds fs d rs es xs a w e = (d', run, wf, held, others)
    where
      parts : (q : Option ℕ) × Seg d.receivers d.empty_list (a ∷ xs) q × Seg d.receivers q es none
      parts = Seg-split d.receivers d.empty_list none (a ∷ xs) es w.empty

      q : Option ℕ
      q = parts.0

      once : Distinct (a ∷ xs) × Distinct es × Apart (a ∷ xs) es
      once = Distinct-split (a ∷ xs) es w.empty_once

      m₁ : Entries
      m₁ = mount_all sid (effective fs) (a ∷ xs) d.receivers

      seg : Seg m₁ d.empty_list (a ∷ xs) q
      seg =
          Seg-frame d.receivers m₁ d.empty_list q (a ∷ xs)
            (λ b h. mount_all-next sid (effective fs) (a ∷ xs) d.receivers b) parts.1

      d' : Device
      d' = record d {
        free_entries = d.free_entries - entries fs;
        empty_list = (m₁ (last a xs)).next;
        receivers = link (last a xs) d.recv_list m₁;
        recv_list = some a;
      }

      run : add_entries sid fs d ≡ done d'
      run =
          unfold add_entries in
          rw (parts.1.0, mount_list-runs fs a xs d.empty_list q d.receivers e parts.1) refl

      out_rs : has (last a xs) rs ≡ false
      out_rs =
          ground (arith, w.apart (last a xs), has-last a xs, has-append (last a xs) (a ∷ xs) es)

      out_es : has (last a xs) es ≡ false
      out_es = once.2 (last a xs) (has-last a xs)

      keep : (p r : Option ℕ) (ys : List ℕ) → Seg d.receivers p ys r → Seg m₁ p ys r
      keep p r ys =
          Seg-frame d.receivers m₁ p r ys
            (λ b h. mount_all-next sid (effective fs) (a ∷ xs) d.receivers b)

      recv : Seg d'.receivers (some a) ((a ∷ xs) ++ rs) none
      recv =
          Seg-append d'.receivers (some a) d.recv_list none (a ∷ xs) rs
            (Seg-link_last m₁ (some a) q d.recv_list a xs once.0 (refl, seg.1))
            (Seg-link_other m₁ d.recv_list none d.recv_list (last a xs) rs out_rs
              (keep d.recv_list none rs w.recv))

      empty : Seg d'.receivers d'.empty_list es none
      empty =
          rw (next-last m₁ d.empty_list q a xs seg)
            (Seg-link_other m₁ q none d.recv_list (last a xs) es out_es (keep q none es parts.2))

      wf : IsWf d' ((a ∷ xs) ++ rs) es
      wf = record {
        recv = recv;
        empty = empty;
        recv_once =
            Distinct-append (a ∷ xs) rs once.0 w.recv_once
              (λ b h. ground (arith, w.apart b, has-append b (a ∷ xs) es));
        empty_once = once.1;
        apart = λ b h.
            ground (arith, w.apart b, has-append b (a ∷ xs) es, has-append b (a ∷ xs) rs, once.2 b);
        free = ground (arith, w.free, length-append (a ∷ xs) es, entries-effective fs);
      }

      untouched : (b : ℕ) → has b (a ∷ xs) ≡ false → d'.receivers b ≡ d.receivers b
      untouched b h =
          link-other d.recv_list (last a xs) b m₁ (ground (arith, has-last a xs))
          ∙ mount_all-other sid (effective fs) (a ∷ xs) d.receivers b h

      others : (b : ℕ) → d'.receivers b ≡ (if has b (a ∷ xs) then d'.receivers b else d.receivers b)
      others b = elim (Bool-cases (has b (a ∷ xs))) [
        | inl e ↦ rw e refl
        | inr e ↦ rw e (untouched b e)
      ]

      held : Held d'.receivers sid (effective fs) (a ∷ xs)
      held =
          Held-link d.recv_list (last a xs) m₁ (effective fs) (a ∷ xs)
            (mount_all-Held sid (effective fs) (a ∷ xs) d.receivers e once.0)
