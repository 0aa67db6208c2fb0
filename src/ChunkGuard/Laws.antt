-- ===== src/ChunkGuard/Laws.antt =====
-- The guard reloads at most once in a window of time, and does reload after one.
use mathlib.Core.Path.{subst}
use testkit_service.Prelude.{
  ℕ, String, true, none, some, List, [], ◌∷◌, ◌≡◌, refl, ◌+◌, ◌≤◌, ◌<◌, ◌⊎◌, inl, inr, arith, All,
  ap, ◌∙◌, sym,
}
use testkit_service.Browser.{Browser, Effect, reloaded, ok, update}
use testkit_service.Browser.Laws.{IsUsable}
use testkit_service.ChunkGuard.{
  Clockwork, ErrorSource, is_stale_resource, within_cooldown, on_error, reloaded_at_key,
}

-- `Number` reads the text of a time back.
pub record IsExact (clock : Clockwork) : Type 0 where
  pub read_back : (n : ℕ) → clock.of_text (clock.to_text n) ≡ some n

abbrev pub is_reload : Effect → ℕ
is_reload reloaded = 1
is_reload _ = 0

abbrev pub reloads : List Effect → ℕ
reloads [] = 0
reloads (e ∷ es) = is_reload e + reloads es

-- The listener over a sequence of errors, each with its time; what it throws is lost.
unfoldable pub replay : Clockwork → List (ℕ × ErrorSource) → Browser → Browser
replay clock [] w = w
replay clock ((now, source) ∷ events) w = replay clock events (on_error clock now source w).1

-- A reload is on record at a time from `a` on.
abbrev HasReloaded : Clockwork → ℕ → Browser → Type 0
HasReloaded clock a w =
    (text : String) × (l : ℕ) × (w.session reloaded_at_key ≡ some text)
    × (clock.of_text text ≡ some l)
    × (a ≤ l)

-- The browser that has been reloaded at `now`.
abbrev pub marked_at : Clockwork → ℕ → Browser → Browser
marked_at clock now w = record w {
  session = update w.session reloaded_at_key (some (clock.to_text now));
  log = reloaded ∷ w.log;
}

on_error-cases :
    (clock : Clockwork) (now : ℕ) (source : ErrorSource) (w : Browser)
    → ((on_error clock now source w).1 ≡ w)
      ⊎ ((on_error clock now source w).1 ≡ marked_at clock now w)
unfolding on_error within_cooldown
on_error-cases clock now source w = ground arith

module _ (clock : Clockwork) (exact : IsExact clock) (a : ℕ) where
  on_error_quiet :
      (now : ℕ) (source : ErrorSource) (w : Browser)
      → now < a + 30000
      → HasReloaded clock a w
      → (on_error clock now source w).1 ≡ w
  unfolding on_error within_cooldown
  on_error_quiet now source w before (text, l, stored, parsed, late) = ground arith

  replay_quiet :
      (events : List (ℕ × ErrorSource)) (w : Browser)
      → All (λ e. (a ≤ e.0) × (e.0 < a + 30000)) events
      → HasReloaded clock a w
      → replay clock events w ≡ w
  unfolding replay
  replay_quiet [] w times done = refl
  replay_quiet ((now, source) ∷ events) w ((late, before), times) done =
      ap (replay clock events) (on_error_quiet now source w before done)
      ∙ replay_quiet events w times done

  -- If the text of a time is read back as that time, then over any sequence of errors whose times lie
  -- in one window of 30 seconds, and in any browser, the page is reloaded at most once.
  pub replay-reloads_le_one :
      (events : List (ℕ × ErrorSource)) (w : Browser)
      → All (λ e. (a ≤ e.0) × (e.0 < a + 30000)) events
      → reloads (replay clock events w).log ≤ 1 + reloads w.log
  unfolding replay
  replay-reloads_le_one [] w times = omega arith
  replay-reloads_le_one ((now, source) ∷ events) w ((late, before), times) =
      elim (on_error-cases clock now source w) [
        | inl kept ↦
            subst (λ v. reloads (replay clock events v).log ≤ 1 + reloads w.log) (sym kept)
              (replay-reloads_le_one events w times)
        | inr marked ↦
            let done : HasReloaded clock a (marked_at clock now w) =
              (clock.to_text now, now, refl, exact.read_back now, late) in
            subst (λ v. reloads (replay clock events v).log ≤ 1 + reloads w.log) (sym marked)
              (omega (
                arith,
                ap (λ (v : Browser). reloads v.log)
                    (replay_quiet events (marked_at clock now w) times done),
              ))
      ]

-- A missing chunk is healed: where storage works and no reload is on record in the last cooldown,
-- a failing script or link element gets the page reloaded, and the time is put on record first.
pub on_error_heals :
    (clock : Clockwork) (now : ℕ) (source : ErrorSource) (w : Browser)
    → IsUsable w
    → is_stale_resource source ≡ true
    → ((w.session reloaded_at_key ≡ none) × (30000 ≤ now))
      ⊎ ((text : String) × (last : ℕ) × (w.session reloaded_at_key ≡ some text)
          × (clock.of_text text ≡ some last)
          × (last + 30000 ≤ now))
    → on_error clock now source w ≡ (ok tt, marked_at clock now w)
unfolding on_error within_cooldown
on_error_heals clock now source w u stale (inl h) = ground arith
on_error_heals clock now source w u stale (inr h) = ground arith
