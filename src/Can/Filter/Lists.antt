-- ===== src/Can/Filter/Lists.antt =====
-- The two lists of a device, and what a binding and its removal do to them.
use rtdm_native.Prelude.{
  ℕ, ◌≡◌, refl, ap, ◌∙◌, arith, false, List, [], ◌∷◌, length, Option, none, some,
}
use rtdm_native.Can.Types.{CanFilter, Device, SockId}
use rtdm_native.Can.Filter.{rtcan_raw_mount_filter, mount, mount_rest}
use rtdm_native.Can.Filter.Chain.{Entries, has, Seg, Distinct, Apart, last, Seg-frame}
use rtdm_native.Can.Run.{done}

-- `recv_list` runs through `rs` and `empty_list` through `es`, no entry is met twice, and
-- `free_entries` counts the empty ones.
pub record IsWf (d : Device) (rs es : List ℕ) : Type 0 where
  pub recv : Seg d.receivers d.recv_list rs none
  pub empty : Seg d.receivers d.empty_list es none
  pub recv_once : Distinct rs
  pub empty_once : Distinct es
  pub apart : Apart rs es
  pub free : d.free_entries ≡ length es

-- The filters of a socket without a list of its own: one that lets all frames pass.
abbrev pub effective : List CanFilter → List CanFilter
effective [] = record { can_id = 0; can_mask = 0 } ∷ []
effective (f ∷ fs) = f ∷ fs

-- The entries `xs` hold the filters `fs` for a socket.
abbrev pub Held : Entries → SockId → List CanFilter → List ℕ → Type 0
Held m sid [] [] = Unit {0}
Held m sid [] (x ∷ xs) = ⊥
Held m sid (f ∷ fs) [] = ⊥
Held m sid (f ∷ fs) (x ∷ xs) =
    ((m x).sock ≡ some sid)
    × ((m x).can_filter ≡ rtcan_raw_mount_filter f)
    × ((m x).match_count ≡ 0)
    × Held m sid fs xs

unfoldable pub mount_all : SockId → List CanFilter → List ℕ → Entries → Entries
mount_all sid [] xs m = m
mount_all sid (f ∷ fs) [] m = m
mount_all sid (f ∷ fs) (x ∷ xs) m = mount_all sid fs xs (mount sid (rtcan_raw_mount_filter f) x m)

module _ (sid : SockId) where
  pub mount-next : (f : CanFilter) (x a : ℕ) (m : Entries) → (mount sid f x m a).next ≡ (m a).next
  unfolding mount
  mount-next f x a m = ground arith

  pub mount_all-next :
      (fs : List CanFilter) (xs : List ℕ) (m : Entries) (a : ℕ)
      → (mount_all sid fs xs m a).next ≡ (m a).next
  unfolding mount_all
  mount_all-next [] xs m a = refl
  mount_all-next (f ∷ fs) [] m a = refl
  mount_all-next (f ∷ fs) (x ∷ xs) m a =
      mount_all-next fs xs (mount sid (rtcan_raw_mount_filter f) x m) a
      ∙ mount-next (rtcan_raw_mount_filter f) x a m

  pub mount_all-other :
      (fs : List CanFilter) (xs : List ℕ) (m : Entries) (a : ℕ)
      → has a xs ≡ false
      → mount_all sid fs xs m a ≡ m a
  unfolding mount_all mount
  mount_all-other [] xs m a h = refl
  mount_all-other (f ∷ fs) [] m a h = refl
  mount_all-other (f ∷ fs) (x ∷ xs) m a h =
      mount_all-other fs xs (mount sid (rtcan_raw_mount_filter f) x m) a (ground arith)
      ∙ ground arith

  pub mount_all-Held :
      (fs : List CanFilter) (xs : List ℕ) (m : Entries)
      → length fs ≡ length xs
      → Distinct xs
      → Held (mount_all sid fs xs m) sid fs xs
  unfolding mount_all
  mount_all-Held [] [] m e d = tt
  mount_all-Held [] (x ∷ xs) m e d = absurd (omega arith)
  mount_all-Held (f ∷ fs) [] m e d = absurd (omega arith)
  mount_all-Held (f ∷ fs) (x ∷ xs) m e d = (
    ap (λ r. r.sock) at ∙ now.0,
    ap (λ r. r.can_filter) at ∙ now.1,
    ap (λ r. r.match_count) at ∙ now.2,
    mount_all-Held fs xs m' (omega arith) d.1,
  )
    where
      m' : Entries
      m' = mount sid (rtcan_raw_mount_filter f) x m

      at : mount_all sid fs xs m' x ≡ m' x
      at = mount_all-other fs xs m' x d.0

      now :
          ((m' x).sock ≡ some sid)
          × ((m' x).can_filter ≡ rtcan_raw_mount_filter f)
          × ((m' x).match_count ≡ 0)
      now = unfold mount in (ground arith, ground arith, ground arith)

  pub mount_rest-runs :
      (fs : List CanFilter) (l : ℕ) (xs : List ℕ) (p q : Option ℕ) (m : Entries)
      → length fs ≡ length xs
      → Seg m p (l ∷ xs) q
      → mount_rest sid fs l m ≡ done (mount_all sid fs xs m, last l xs)
  unfolding mount_rest mount_all
  mount_rest-runs [] l [] p q m e s = refl
  mount_rest-runs [] l (x ∷ xs) p q m e s = absurd (omega arith)
  mount_rest-runs (f ∷ fs) l [] p q m e s = absurd (omega arith)
  mount_rest-runs (f ∷ fs) l (x ∷ xs) p q m e s = rw (s.1.0) (
      mount_rest-runs fs x xs (some x) q m' (omega arith) (
        Seg-frame m m' (some x) q (x ∷ xs) (λ a h. mount-next (rtcan_raw_mount_filter f) x a m)
          (refl, s.1.1)))
    where
      m' : Entries
      m' = mount sid (rtcan_raw_mount_filter f) x m
