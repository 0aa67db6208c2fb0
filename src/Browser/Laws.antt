-- ===== src/Browser/Laws.antt =====
-- Facts about actions on the browser: storage that answers, and the next step of a sequence.
use testkit_service.Prelude.{◌≡◌, ◌⊎◌, inl, inr, refl, false, sym}
use mathlib.Core.Path.{subst}
use testkit_service.Browser.{
  Browser, Outcome, ok, err, M, ◌>>=◌, bind_from, Failure, catch_from, pure,
}

-- Storage whose reads, writes and removals all work.
pub record IsUsable (w : Browser) : Type 0 where
  pub unblocked : w.blocked ≡ false
  pub writable : w.full ≡ false

next_step :
    {A B : Type 0} (r : Outcome A × Browser) (k : A → M B) {a : A}
    → r.0 ≡ ok a
    → bind_from k r ≡ k a r.1
next_step (ok b, w) k h = cc
next_step (err e, w) k h = cc

-- A step whose value is known hands it on, with the browser that it leaves.
pub >>=-eq :
    {A B : Type 0} (m : M A) (k : A → M B) (w : Browser) {a : A}
    → (m w).0 ≡ ok a
    → (m >>= k) w ≡ k a (m w).1
>>=-eq m k w h = next_step (m w) k h

-- To prove a fact about a usable browser, prove it where the two flags are written out.
pub by_usable {ℓ} :
    (P : Browser → Type ℓ) (w : Browser)
    → IsUsable w
    → P (record w { blocked = false; full = false })
    → P w
by_usable P w u p =
    subst P (λ i. record w { blocked = sym u.unblocked i; full = sym u.writable i }) p

pub by_unblocked {ℓ} :
    (P : Browser → Type ℓ) (w : Browser)
    → w.blocked ≡ false
    → P (record w { blocked = false })
    → P w
by_unblocked P w b p = subst P (λ i. record w { blocked = sym b i }) p

-- A `try` whose two ends only compute throws nothing.
pub caught :
    {A B : Type 0} (answered : A → B) (failed : Failure → B) (r : Outcome A × Browser)
    → let ended = catch_from (λ e. pure (failed e)) (bind_from (λ a. pure (answered a)) r) in
      ((a : A) × (ended.0 ≡ ok (answered a))) ⊎ ((e : Failure) × (ended.0 ≡ ok (failed e)))
caught answered failed (ok a, w) = inl (a, refl)
caught answered failed (err e, w) = inr (e, refl)
