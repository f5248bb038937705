-- ===== src/Can/Receive/Rounds.antt =====
-- The whole loop over a reception list.
use rtdm_native.Prelude.{
  ℕ, zero, suc, ◌<◌, ◌≡◌, refl, sym, subst, ◌∙◌, ap, arith, Bool, true, false, ◌&&◌, ◌==◌, List, [],
  ◌∷◌, length, Option, none, some,
}
use rtdm_native.Can.Types.{Config, Recv, SockId}
use rtdm_native.Can.Filter.Chain.{Entries, has, Seg, Distinct, Seg-frame}
use rtdm_native.Can.Receive.{Rx, listen}
use rtdm_native.Can.Run.{done}
use rtdm_native.Can.Receive.Listeners.{
  Owned, chosen, counted, counted-links, is_for, served, Alike, ticks, Serves, Alike-trans,
  offer-Serves,
}

module _ (c : Config) where
  module _ (tick : ℕ → ℕ) (wants : Rx → SockId → Recv → Bool)
      (steady : (rx rx' : Rx)
        → Alike rx rx'
        → (sid : SockId) (r : Recv) → wants rx' sid r ≡ wants rx sid r) where
    chosen-same :
        (rx rx₁ : Rx) (a : ℕ)
        → rx₁.receivers a ≡ rx.receivers a
        → Alike rx rx₁
        → chosen wants rx₁ a ≡ chosen wants rx a
    chosen-same rx rx₁ a e al =
        ap (λ r. elim (r.sock) [ none ↦ false | some u ↦ wants rx₁ u r ]) e
        ∙ go ((rx.receivers a).sock) (rx.receivers a)
      where
        go :
            (o : Option SockId) (r : Recv)
            → (elim o [ none ↦ false | some u ↦ wants rx₁ u r ])
              ≡ (elim o [ none ↦ false | some u ↦ wants rx u r ])
        go none r = refl
        go (some u) r = steady rx rx₁ al u r

    served-same :
        (rx rx₁ : Rx) (xs : List ℕ) (sid : SockId)
        → ((a : ℕ) → has a xs ≡ true → rx₁.receivers a ≡ rx.receivers a)
        → Alike rx rx₁
        → served wants rx₁ xs sid ≡ served wants rx xs sid
    served-same rx rx₁ [] sid h al = refl
    served-same rx rx₁ (x ∷ xs) sid h al = ground (
      arith,
      ap (λ r. is_for (r.sock) sid) same,
      chosen-same rx rx₁ x same al,
      served-same rx rx₁ xs sid (λ a i. h a (ground arith)) al,
    )
      where
        same : rx₁.receivers x ≡ rx.receivers x
        same = h x (ground arith)

    uncounted : (b : Bool) (r : Recv) → b ≡ false → counted b r ≡ r
    uncounted true r h = absurd (ground arith)
    uncounted false r h = refl

    Serves-cons :
        (x : ℕ) (xs : List ℕ) (rx rx₁ rx₂ : Rx)
        → has x xs ≡ false
        → Serves tick wants (x ∷ []) rx rx₁
        → Serves tick wants xs rx₁ rx₂
        → Serves tick wants (x ∷ xs) rx rx₂
    Serves-cons x xs rx rx₁ rx₂ out s t = record {
      counts = λ a. count a (x == a) refl;
      others = λ sid. ground (arith, s.others sid, t.others sid, rest sid);
      alike = Alike-trans c tick wants steady rx rx₁ rx₂ s.alike t.alike;
      tally = t.tally ∙ ap (ticks tick xs) s.tally;
    }
      where
        untouched : (a : ℕ) → (x == a) ≡ false → rx₁.receivers a ≡ rx.receivers a
        untouched a h =
            s.counts a
            ∙ uncounted (has a (x ∷ []) && chosen wants rx a) (rx.receivers a) (ground (arith, h))

        rest : (sid : SockId) → served wants rx₁ xs sid ≡ served wants rx xs sid
        rest sid = served-same rx rx₁ xs sid (λ a i. untouched a (ground arith)) s.alike

        count :
            (a : ℕ) (b : Bool)
            → (x == a) ≡ b
            → rx₂.receivers a ≡ counted (has a (x ∷ xs) && chosen wants rx a) (rx.receivers a)
        count a true e =
            t.counts a
            ∙ uncounted (has a xs && chosen wants rx₁ a) (rx₁.receivers a) (ground arith)
            ∙ s.counts a
            ∙ ap (λ b. counted b (rx.receivers a)) {y = has a (x ∷ xs) && chosen wants rx a}
                (ground arith)
        count a false e =
            t.counts a
            ∙ ap (λ b. counted b (rx₁.receivers a)) {y = has a (x ∷ xs) && chosen wants rx a}
                (ground (arith, chosen-same rx rx₁ a (untouched a e) s.alike))
            ∙ ap (counted (has a (x ∷ xs) && chosen wants rx a)) (untouched a e)

    Owned-frame :
        (m m' : Entries) (xs : List ℕ)
        → ((a : ℕ) → (m' a).sock ≡ (m a).sock)
        → Owned m xs
        → Owned m' xs
    Owned-frame m m' [] e o = tt
    Owned-frame m m' (x ∷ xs) e o = ((o.0.0, e x ∙ o.0.1), Owned-frame m m' xs e o.1)

    -- Behind an entry that was served the list is as it was.
    behind :
        (x : ℕ) (xs : List ℕ) (rx rx₁ : Rx)
        → Seg rx.receivers (rx.receivers x).next xs none
        → Owned rx.receivers xs
        → Serves tick wants (x ∷ []) rx rx₁
        → Seg rx₁.receivers (rx₁.receivers x).next xs none × Owned rx₁.receivers xs
    behind x xs rx rx₁ s o sv = (
      subst (λ q. Seg rx₁.receivers q xs none) (sym (links x).0)
          (Seg-frame rx.receivers rx₁.receivers ((rx.receivers x).next) none xs (λ a h. (links a).0)
            s),
      Owned-frame rx.receivers rx₁.receivers xs (λ a. (links a).1) o,
    )
      where
        links :
            (a : ℕ)
            → ((rx₁.receivers a).next ≡ (rx.receivers a).next)
              × ((rx₁.receivers a).sock ≡ (rx.receivers a).sock)
        links a =
            let same = counted-links (has a (x ∷ []) && chosen wants rx a) (rx.receivers a) in
            (ap (λ r. r.next) (sv.counts a) ∙ same.0, ap (λ r. r.sock) (sv.counts a) ∙ same.1)

    -- The loop ends on a list that is shorter than its fuel, and serves it.
    pub listen-Serves :
        (fuel : ℕ) (rs : List ℕ) (p : Option ℕ) (rx : Rx)
        → length rs < fuel
        → Seg rx.receivers p rs none
        → Distinct rs
        → Owned rx.receivers rs
        → (rx' : Rx) × (listen c tick wants fuel p rx ≡ done rx') × Serves tick wants rs rx rx'
    unfolding listen
    listen-Serves zero rs p rx l s d o = absurd (omega arith)
    listen-Serves (suc fuel) [] p rx l s d o = (
      rx,
      rw s refl,
      record {
        counts = λ a. refl;
        others = λ sid. refl;
        alike = record { same_id = refl; same_masks = λ t. refl };
        tally = refl;
      },
    )
    listen-Serves (suc fuel) (x ∷ xs) p rx l s d o =
        let (rx₁, run, sv) = offer-Serves c tick wants steady x rx o.0.0 o.0.1 in
        let (seg, owned) = behind x xs rx rx₁ s.1 o.1 sv in
        let (rx₂, runs, svs) =
          listen-Serves fuel xs ((rx₁.receivers x).next) rx₁ (omega arith) seg d.1 owned in
        (rx₂, rw (s.0) (rw (run, listen) runs), Serves-cons x xs rx rx₁ rx₂ d.0 sv svs)
