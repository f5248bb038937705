-- ===== src/Can/Filter/Unbind.antt =====
-- `rtcan_raw_remove_filter` on one device: what the end of a binding does to the two lists.
use rtdm_native.Prelude.{
  inl, inr, Bool-cases, ==_iff, ℕ, zero, suc, ◌+◌, ◌-◌, ◌≤◌, ◌<◌, ◌≡◌, ◌≢◌, refl, sym, subst, ◌∙◌,
  arith, true, false, ◌==◌, if◌then◌else◌, List, [], ◌∷◌, ◌++◌, length, length-append, Option, none,
  some,
}
use rtdm_native.Can.Types.{Config, Device, SockId}
use rtdm_native.Can.Filter.{link, search, go_on, detach, remove_entries}
use rtdm_native.Can.Filter.Chain.{
  Entries, has, Seg, Distinct, Apart, last, Seg-append, Seg-split, Seg-link_last, Seg-link_other,
  next-last, has-last, Distinct-append, Distinct-split, has-append,
}
use rtdm_native.Can.Filter.Lists.{IsWf}
use rtdm_native.Can.Run.{done, fault}

-- The last entry of a list, or what stands before it.
abbrev pub before : Option ℕ → List ℕ → Option ℕ
before o [] = o
before o (x ∷ xs) = before (some x) xs

before-last : (x : ℕ) (xs : List ℕ) → before (some x) xs ≡ some (last x xs)
before-last x [] = refl
before-last x (y ∷ ys) = before-last y ys

-- No entry of the list belongs to the socket.
abbrev pub Foreign : Entries → SockId → List ℕ → Type 0
Foreign m sid xs = (x : ℕ) → has x xs ≡ true → (m x).sock ≢ some sid

module _ (m : Entries) (sid : SockId) where
  pub Foreign-nil : Foreign m sid []
  Foreign-nil x h = absurd (ground (arith, h))

  pub Foreign-cons :
      (x : ℕ) (xs : List ℕ) → (m x).sock ≢ some sid → Foreign m sid xs → Foreign m sid (x ∷ xs)
  Foreign-cons x xs n f y h = elim (Bool-cases (x == y)) [
    | inl e ↦ subst (λ z. (m z).sock ≢ some sid) ((==_iff x y).0 e) n
    | inr e ↦ f y (ground (arith, e, h))
  ]

  pass_by {ℓ} :
      {A : Type ℓ} (o : Option ℕ) (found rest : A)
      → o ≢ some sid
      → (elim o [ none ↦ rest | some other ↦ if other == sid then found else rest ]) ≡ rest
  pass_by none found rest h = refl
  pass_by (some other) found rest h = ground arith

  search-finds :
      (fuel b : ℕ) (pre : List ℕ) (first p : Option ℕ)
      → length pre < fuel
      → Seg m p pre (some b)
      → Foreign m sid pre
      → (m b).sock ≡ some sid
      → search fuel m sid first p ≡ done (before first pre, b)
  unfolding search
  search-finds zero b pre first p l s h o = absurd (omega arith)
  search-finds (suc fuel) b [] first p l s h o = rw (s) (rw (o, search) (ground arith))
  search-finds (suc fuel) b (x ∷ xs) first p l s h o = rw (s.0) (
      pass_by ((m x).sock) (done (first, x)) (search fuel m sid (some x) ((m x).next))
        (h x (ground arith))
      ∙ search-finds fuel b xs (some x) ((m x).next) (omega arith) s.1 (λ y i. h y (ground arith))
          o)

  -- Without an entry of the socket the search runs off the end of the list.
  search-faults :
      (fuel : ℕ) (pre : List ℕ) (first p : Option ℕ)
      → length pre < fuel
      → Seg m p pre none
      → Foreign m sid pre
      → search fuel m sid first p ≡ fault
  unfolding search
  search-faults zero pre first p l s h = absurd (omega arith)
  search-faults (suc fuel) [] first p l s h = rw s refl
  search-faults (suc fuel) (x ∷ xs) first p l s h = rw (s.0) (
      pass_by ((m x).sock) (done (first, x)) (search fuel m sid (some x) ((m x).next))
        (h x (ground arith))
      ∙ search-faults fuel xs (some x) ((m x).next) (omega arith) s.1 (λ y i. h y (ground arith)))

  go_on-last :
      (a : ℕ) (xs : List ℕ) (p q : Option ℕ)
      → Seg m p (a ∷ xs) q
      → go_on (length xs) m a ≡ done (last a xs)
  unfolding go_on
  go_on-last a [] p q s = refl
  go_on-last a (x ∷ xs) p q s = rw (s.1.0) (go_on-last x xs (some x) q (refl, s.1.1))

steps :
    (c : Config) (sid : SockId) (n b l : ℕ) (d : Device) (first : Option ℕ)
    → search (c.max_receivers + 1) d.receivers sid none d.recv_list ≡ done (first, b)
    → go_on n d.receivers b ≡ done l
    → remove_entries c sid (suc n) d
      ≡ done (
          let d₁ : Device = detach first ((d.receivers l).next) d in
          record d₁ {
            receivers = link l d.empty_list d₁.receivers;
            empty_list = some b;
            free_entries = d.free_entries + suc n;
          })
unfolding remove_entries
steps c sid n b l d first e f = rw e (rw (shorter, f) refl)
  where
    shorter : suc n - 1 ≡ n
    shorter = omega arith

finish :
    (d : Device) (e : Option ℕ) (n b : ℕ) (r : Option ℕ) (bs rest es : List ℕ)
    → Seg d.receivers d.recv_list rest none
    → Seg d.receivers (some b) (b ∷ bs) r
    → Seg d.receivers e es none
    → Distinct rest
    → Distinct (b ∷ bs)
    → Distinct es
    → Apart (b ∷ bs) es
    → Apart (b ∷ bs) rest
    → Apart rest es
    → n ≡ length es
    → IsWf
        (record d {
          receivers = link (last b bs) e d.receivers;
          empty_list = some b;
          free_entries = n + length (b ∷ bs);
        })
        rest
        ((b ∷ bs) ++ es)
finish d e n b r bs rest es s t u dr db de be br re l = record {
  recv =
      Seg-link_other d.receivers d.recv_list none e (last b bs) rest
        (br (last b bs) (has-last b bs)) s;
  empty =
      Seg-append (link (last b bs) e d.receivers) (some b) e none (b ∷ bs) es
        (Seg-link_last d.receivers (some b) r e b bs db t)
        (Seg-link_other d.receivers e none e (last b bs) es (be (last b bs) (has-last b bs)) u);
  recv_once = dr;
  empty_once = Distinct-append (b ∷ bs) es db de be;
  apart = λ x h. ground (arith, re x, br x, has-append x (b ∷ bs) es);
  free = ground (arith, l, length-append (b ∷ bs) es);
}

-- What the two cases of `detach` share: the entries `blk` are found behind the entries `pre`.
abbrev pub Unbinds : Config → SockId → Device → List ℕ → List ℕ → List ℕ → Type 0
Unbinds c sid d rest blk es =
    (d' : Device) × (remove_entries c sid (length blk) d ≡ done d')
    × IsWf d' rest (blk ++ es)
    × ((x : ℕ) → (d'.receivers x).sock ≡ (d.receivers x).sock)

module _ (c : Config) (sid : SockId) (d : Device) (b : ℕ) (bs post es : List ℕ) where
  remove_entries-at_head :
      IsWf d ((b ∷ bs) ++ post) es
      → (d.receivers b).sock ≡ some sid
      → Unbinds c sid d post (b ∷ bs) es
  remove_entries-at_head w o = (d', run, wf, λ x. unfold link in ground arith)
    where
      parts : (q : Option ℕ) × Seg d.receivers d.recv_list (b ∷ bs) q × Seg d.receivers q post none
      parts = Seg-split d.receivers d.recv_list none (b ∷ bs) post w.recv

      once : Distinct (b ∷ bs) × Distinct post × Apart (b ∷ bs) post
      once = Distinct-split (b ∷ bs) post w.recv_once

      l : ℕ
      l = last b bs

      d₁ : Device
      d₁ = record d { recv_list = (d.receivers l).next }

      d' : Device
      d' = record d₁ {
        receivers = link l d.empty_list d.receivers;
        empty_list = some b;
        free_entries = d.free_entries + length (b ∷ bs);
      }

      found : search (c.max_receivers + 1) d.receivers sid none d.recv_list ≡ done (none, b)
      found = rw (parts.1.0) (
          search-finds d.receivers sid (c.max_receivers + 1) b [] none (some b) (omega arith) refl
            (λ x h. absurd (ground (arith, h))) o)

      run : remove_entries c sid (length (b ∷ bs)) d ≡ done d'
      run =
          unfold detach in
          steps c sid (length bs) b l d none found
            (go_on-last d.receivers sid b bs d.recv_list parts.0 parts.1)

      wf : IsWf d' post ((b ∷ bs) ++ es)
      wf =
          finish d₁ d.empty_list d.free_entries b parts.0 bs post es
            (rw (next-last d.receivers d.recv_list parts.0 b bs parts.1) parts.2) (refl, parts.1.1)
            w.empty once.1 once.0 w.empty_once
            (λ x h. w.apart x (ground (arith, has-append x (b ∷ bs) post))) once.2
            (λ x h. w.apart x (ground (arith, has-append x (b ∷ bs) post))) w.free

  remove_entries-behind :
      (a : ℕ) (pre : List ℕ)
      → IsWf d ((a ∷ pre) ++ ((b ∷ bs) ++ post)) es
      → Foreign d.receivers sid (a ∷ pre)
      → (d.receivers b).sock ≡ some sid
      → length (a ∷ pre) ≤ c.max_receivers
      → Unbinds c sid d ((a ∷ pre) ++ post) (b ∷ bs) es
  remove_entries-behind a pre w h o le = (d', run, wf, λ x. unfold link in ground arith)
    where
      m : Entries
      m = d.receivers

      blk : List ℕ
      blk = b ∷ bs

      cut : (q : Option ℕ) × Seg m d.recv_list (a ∷ pre) q × Seg m q (blk ++ post) none
      cut = Seg-split m d.recv_list none (a ∷ pre) (blk ++ post) w.recv

      at : cut.0 ≡ some b
      at = cut.2.0

      parts : (q : Option ℕ) × Seg m cut.0 blk q × Seg m q post none
      parts = Seg-split m cut.0 none blk post cut.2

      once : Distinct (a ∷ pre) × Distinct (blk ++ post) × Apart (a ∷ pre) (blk ++ post)
      once = Distinct-split (a ∷ pre) (blk ++ post) w.recv_once

      once₁ : Distinct blk × Distinct post × Apart blk post
      once₁ = Distinct-split blk post once.1

      l : ℕ
      l = last b bs

      k : ℕ
      k = last a pre

      m₁ : Entries
      m₁ = link k (m l).next m

      d₁ : Device
      d₁ = record d { receivers = m₁ }

      d' : Device
      d' = record d₁ {
        receivers = link l d.empty_list m₁;
        empty_list = some b;
        free_entries = d.free_entries + length blk;
      }

      in_pre : has k (a ∷ pre) ≡ true
      in_pre = has-last a pre

      keep : (p r : Option ℕ) (ys : List ℕ) → has k ys ≡ false → Seg m p ys r → Seg m₁ p ys r
      keep p r ys out = Seg-link_other m p r (m l).next k ys out

      found : search (c.max_receivers + 1) m sid none d.recv_list ≡ done (some k, b)
      found = rw (sym (before-last a pre)) (
          search-finds m sid (c.max_receivers + 1) b (a ∷ pre) none d.recv_list (omega arith)
            (subst (λ r. Seg m d.recv_list (a ∷ pre) r) at cut.1) h o)

      run : remove_entries c sid (length blk) d ≡ done d'
      run =
          unfold detach in
          steps c sid (length bs) b l d (some k) found (go_on-last m sid b bs cut.0 parts.0 parts.1)

      next_l : (m l).next ≡ parts.0
      next_l = next-last m cut.0 parts.0 b bs parts.1

      recv : Seg m₁ d.recv_list ((a ∷ pre) ++ post) none
      recv =
          Seg-append m₁ d.recv_list (m l).next none (a ∷ pre) post
            (Seg-link_last m d.recv_list cut.0 (m l).next a pre once.0 cut.1)
            (keep (m l).next none post (ground (arith, once.2 k in_pre, has-append k blk post))
              (rw next_l parts.2))

      wf : IsWf d' ((a ∷ pre) ++ post) (blk ++ es)
      wf =
          finish d₁ d.empty_list d.free_entries b parts.0 bs ((a ∷ pre) ++ post) es recv
            (keep (some b) parts.0 blk (ground (arith, once.2 k in_pre, has-append k blk post))
              (refl, parts.1.1))
            (keep d.empty_list none es
              (w.apart k (ground (arith, in_pre, has-append k (a ∷ pre) (blk ++ post)))) w.empty)
            (Distinct-append (a ∷ pre) post once.0 once₁.1
              (λ x i. ground (arith, once.2 x i, has-append x blk post)))
            once₁.0 w.empty_once
            (λ x i.
              w.apart x
                (ground (arith, i, has-append x (a ∷ pre) (blk ++ post), has-append x blk post)))
            (λ x i.
              ground
                (arith, once.2 x, once₁.2 x i, has-append x (a ∷ pre) post, has-append x blk post))
            (λ x i. w.apart x (
              ground (
                arith,
                i,
                has-append x (a ∷ pre) post,
                has-append x (a ∷ pre) (blk ++ post),
                has-append x blk post,
              )))
            w.free

-- The removal of a socket whose entries `blk` stand together on the reception list, behind entries of
-- other sockets, completes: these entries go to the front of the empty list, the other entries stay on
-- the reception list in their order, the device stays well-formed and no entry changes its socket.
pub remove_entries-Unbinds :
    (c : Config) (sid : SockId) (d : Device) (pre bs post es : List ℕ) (b : ℕ)
    → IsWf d (pre ++ ((b ∷ bs) ++ post)) es
    → Foreign d.receivers sid pre
    → (d.receivers b).sock ≡ some sid
    → length pre ≤ c.max_receivers
    → Unbinds c sid d (pre ++ post) (b ∷ bs) es
remove_entries-Unbinds c sid d [] bs post es b w h o le =
    remove_entries-at_head c sid d b bs post es w o
remove_entries-Unbinds c sid d (a ∷ pre) bs post es b w h o le =
    remove_entries-behind c sid d b bs post es a pre w h o le

-- On a well-formed device whose reception list has no entry of the socket, and at most `max_receivers`
-- entries, the removal follows NULL: `while (next->sock != sock)` does not stop at the end of the list.
pub remove_entries-faults :
    (c : Config) (sid : SockId) (n : ℕ) (d : Device) (rs es : List ℕ)
    → IsWf d rs es
    → Foreign d.receivers sid rs
    → length rs ≤ c.max_receivers
    → remove_entries c sid n d ≡ fault
unfolding remove_entries
remove_entries-faults c sid n d rs es w h le =
    rw
      (search-faults d.receivers sid (c.max_receivers + 1) rs none d.recv_list (omega arith) w.recv
        h)
      refl
