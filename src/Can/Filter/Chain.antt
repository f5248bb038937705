-- ===== src/Can/Filter/Chain.antt =====
-- Chains of entries in the array of a device: which entries lie on the way from one pointer to another.
use rtdm_native.Prelude.{
  ℕ, ◌≡◌, refl, arith, Bool, true, false, ◌||◌, ◌==◌, List, [], ◌∷◌, ◌++◌, Option, some,
}
use rtdm_native.Can.Types.{Recv}
use rtdm_native.Can.Filter.{link}

abbrev pub Entries : Type 0
Entries = ℕ → Recv

abbrev pub has : ℕ → List ℕ → Bool
has a [] = false
has a (x ∷ xs) = (x == a) || has a xs

-- From `p` the `next` pointers lead through `xs` to `q`.
abbrev pub Seg : Entries → Option ℕ → List ℕ → Option ℕ → Type 0
Seg m p [] q = p ≡ q
Seg m p (x ∷ xs) q = (p ≡ some x) × Seg m ((m x).next) xs q

abbrev pub Distinct : List ℕ → Type 0
Distinct [] = Unit {0}
Distinct (x ∷ xs) = (has x xs ≡ false) × Distinct xs

abbrev pub last : ℕ → List ℕ → ℕ
last a [] = a
last a (x ∷ xs) = last x xs

pub Seg-frame :
    (m m' : Entries) (p q : Option ℕ) (xs : List ℕ)
    → ((a : ℕ) → has a xs ≡ true → (m' a).next ≡ (m a).next)
    → Seg m p xs q
    → Seg m' p xs q
Seg-frame m m' p q [] same s = s
Seg-frame m m' p q (x ∷ xs) same (e, s) = (
  e,
  rw (same x (ground arith)) (Seg-frame m m' ((m x).next) q xs (λ a h. same a (ground arith)) s),
)

pub has-last : (a : ℕ) (xs : List ℕ) → has (last a xs) (a ∷ xs) ≡ true
has-last a [] = ground arith
has-last a (x ∷ xs) = ground (arith, has-last x xs)

pub next-last :
    (m : Entries) (p q : Option ℕ) (a : ℕ) (xs : List ℕ)
    → Seg m p (a ∷ xs) q
    → (m (last a xs)).next ≡ q
next-last m p q a [] (e, s) = s
next-last m p q a (x ∷ xs) (e, s) = next-last m ((m a).next) q x xs s

-- The end of a chain is led elsewhere.
pub Seg-link_last :
    (m : Entries) (p q r : Option ℕ) (a : ℕ) (xs : List ℕ)
    → Distinct (a ∷ xs)
    → Seg m p (a ∷ xs) q
    → Seg (link (last a xs) r m) p (a ∷ xs) r
unfolding link
Seg-link_last m p q r a [] d (e, s) = (e, ground arith)
Seg-link_last m p q r a (x ∷ xs) d (e, s) =
    (e, rw (ne) (Seg-link_last m ((m a).next) q r x xs d.1 s))
  where
    ne : (link (last x xs) r m a).next ≡ (m a).next
    ne = ground (arith, has-last x xs)

pub Seg-append :
    (m : Entries) (p q r : Option ℕ) (xs ys : List ℕ)
    → Seg m p xs q
    → Seg m q ys r
    → Seg m p (xs ++ ys) r
Seg-append m p q r [] ys s t = rw s t
Seg-append m p q r (x ∷ xs) ys (e, s) t = (e, Seg-append m ((m x).next) q r xs ys s t)

pub Seg-split :
    (m : Entries) (p r : Option ℕ) (xs ys : List ℕ)
    → Seg m p (xs ++ ys) r
    → (q : Option ℕ) × Seg m p xs q × Seg m q ys r
Seg-split m p r [] ys s = (p, refl, s)
Seg-split m p r (x ∷ xs) ys (e, s) =
    let (q, s₁, s₂) = Seg-split m ((m x).next) r xs ys s in (q, (e, s₁), s₂)

pub has-append : (a : ℕ) (xs ys : List ℕ) → has a (xs ++ ys) ≡ (has a xs || has a ys)
has-append a [] ys = refl
has-append a (x ∷ xs) ys = ground (arith, has-append a xs ys)

-- No entry is in both lists.
abbrev pub Apart : List ℕ → List ℕ → Type 0
Apart xs ys = (a : ℕ) → has a xs ≡ true → has a ys ≡ false

pub Apart-symm : (xs ys : List ℕ) → Apart xs ys → Apart ys xs
Apart-symm xs ys h a e = ground (arith, h a)

pub Distinct-append :
    (xs ys : List ℕ) → Distinct xs → Distinct ys → Apart xs ys → Distinct (xs ++ ys)
Distinct-append [] ys d e h = e
Distinct-append (x ∷ xs) ys d e h = (
  ground (arith, has-append x xs ys, d.0, h x),
  Distinct-append xs ys d.1 e (λ a i. h a (ground arith)),
)

pub Distinct-split :
    (xs ys : List ℕ) → Distinct (xs ++ ys) → Distinct xs × Distinct ys × Apart xs ys
Distinct-split [] ys d = (tt, d, λ a h. cc)
Distinct-split (x ∷ xs) ys d =
    let (dx, dy, h) = Distinct-split xs ys d.1 in
    (
      (ground (arith, has-append x xs ys, d.0), dx),
      dy,
      λ a i. ground (arith, has-append x xs ys, d.0, h a),
    )

-- A chain without the entry `b` survives a link of `b`.
pub Seg-link_other :
    (m : Entries) (p q r : Option ℕ) (b : ℕ) (xs : List ℕ)
    → has b xs ≡ false
    → Seg m p xs q
    → Seg (link b r m) p xs q
unfolding link
Seg-link_other m p q r b xs out s = Seg-frame m (link b r m) p q xs (λ a i. ground arith) s
