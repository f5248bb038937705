-- ===== src/Memory.antt =====
-- Memory that the drivers copy bytes to and from: a map from an index to its byte, and `memcpy`.
pub mod Window
use rtdm_native.Prelude.{ℕ, zero, suc, ◌+◌, ◌==◌, if◌then◌else◌, List, [], ◌∷◌}

-- A map with one key changed.
abbrev pub update {ℓ} : {A : Type ℓ} → (ℕ → A) → ℕ → A → ℕ → A
update f k v j = if k == j then v else f j

-- `memcpy(&buf[i], bytes, n)`
unfoldable pub memcpy_to : (ℕ → ℕ) → ℕ → List ℕ → ℕ → ℕ
memcpy_to buf i [] = buf
memcpy_to buf i (x ∷ xs) = memcpy_to (update buf i x) (i + 1) xs

-- `memcpy(to, &buf[i], n)`
unfoldable pub memcpy_from : (ℕ → ℕ) → ℕ → ℕ → List ℕ
memcpy_from buf i zero = []
memcpy_from buf i (suc n) = buf i ∷ memcpy_from buf (i + 1) n
