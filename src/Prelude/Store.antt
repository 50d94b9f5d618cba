-- ===== src/Prelude/Store.antt =====
-- A store of objects at numbers.
use matelib.Prelude.{ℕ, ◌≡◌, ◌≢◌, ◌==◌, ==_refl, ne→==_false, if◌then◌else◌}

abbrev pub put {ℓ} : {A : Type ℓ} → (ℕ → A) → ℕ → A → ℕ → A
put f k v j = if k == j then v else f j

module _ {ℓ} {A : Type ℓ} (f : ℕ → A) (k : ℕ) (v : A) where
  pub put_self : put f k v k ≡ v
  put_self = rw (==_refl k)

  pub put_ne : (j : ℕ) → k ≢ j → put f k v j ≡ f j
  put_ne j h = rw (ne→==_false k j h)
