-- ===== src/Choice/Laws.antt =====
-- Reading, writing and validating the stored tenant choice.
use testkit_service.Prelude.{
  String, true, false, List, [], ◌∷◌, ◌≡◌, refl, ◌⊎◌, inl, arith, get_or, first, includes, Holds,
  eq_iff, if◌then◌else◌,
}
use testkit_service.Browser.{Browser, ok, choice_key}
use testkit_service.Browser.Laws.{IsUsable}
use testkit_service.Choice.{
  Membership, read_tenant_choice, write_tenant_choice, bound_keys, ensure_tenant_choice,
}

-- What a read of the choice sees in a browser.
abbrev pub seen_choice : Browser → String
seen_choice w = if w.blocked then "" else get_or (w.local choice_key) ""

-- A read never throws and changes nothing.
pub read_tenant_choice_lem : (w : Browser) → read_tenant_choice w ≡ (ok (seen_choice w), w)
unfolding read_tenant_choice
read_tenant_choice_lem w = ground arith

-- In a usable browser a write is what the next read returns.
pub read-write_tenant_choice :
    (w : Browser) (key : String)
    → IsUsable w
    → read_tenant_choice (write_tenant_choice key w).1 ≡ (ok key, (write_tenant_choice key w).1)
unfolding read_tenant_choice write_tenant_choice
read-write_tenant_choice w key u = ground arith

pub includes→Holds : (keys : List String) (k : String) → includes keys k ≡ true → Holds k keys
includes→Holds [] k h = cc
includes→Holds (x ∷ xs) k h = ground (arith, includes→Holds xs k, eq_iff x k)

-- The key that the bootstrap settles on: the stored one if it is still bound, else the first.
abbrev pub settled : String → List String → String
settled stored keys = if includes keys stored then stored else get_or (first keys) ""

pub settled_bound :
    (stored : String) (keys : List String)
    → ((keys ≡ []) × (settled stored keys ≡ "")) ⊎ Holds (settled stored keys) keys
settled_bound stored [] = inl (refl, refl)
settled_bound stored (x ∷ xs) = ground (arith, includes→Holds (x ∷ xs) stored)

kept_or_unbound :
    (stored : String) (keys : List String)
    → (settled stored keys ≡ stored) ⊎ (includes keys stored ≡ false)
kept_or_unbound stored keys = ground arith

-- The result in every browser, storage failures included: it never throws.
pub ensure_tenant_choice_lem :
    (w : Browser) (ms : List Membership)
    → (ensure_tenant_choice ms w).0 ≡ ok (settled (seen_choice w) (bound_keys ms))
unfolding ensure_tenant_choice
ensure_tenant_choice_lem w ms = ground arith

pub ensure_tenant_choice-seen :
    (w : Browser) (ms : List Membership)
    → IsUsable w
    → seen_choice (ensure_tenant_choice ms w).1 ≡ settled (seen_choice w) (bound_keys ms)
unfolding ensure_tenant_choice
ensure_tenant_choice-seen w ms u = ground arith

-- In a browser whose storage works, settling the choice returns a key that is also what later reads
-- see. It is a bound key, or empty where nothing is bound; and it is the stored key unless that one is
-- not bound.
pub ensure_tenant_choice-bound :
    (w : Browser) (ms : List Membership)
    → IsUsable w
    → (k : String) × ((ensure_tenant_choice ms w).0 ≡ ok k)
      × (seen_choice (ensure_tenant_choice ms w).1 ≡ k)
      × (((bound_keys ms ≡ []) × (k ≡ "")) ⊎ Holds k (bound_keys ms))
      × ((k ≡ seen_choice w) ⊎ (includes (bound_keys ms) (seen_choice w) ≡ false))
ensure_tenant_choice-bound w ms u =
    let keys = bound_keys ms in
    let stored = seen_choice w in
    (
      settled stored keys,
      ensure_tenant_choice_lem w ms,
      ensure_tenant_choice-seen w ms u,
      settled_bound stored keys,
      kept_or_unbound stored keys,
    )

-- Settling the choice sends nothing and moves nowhere.
pub ensure_tenant_choice-log :
    (w : Browser) (ms : List Membership)
    → ((ensure_tenant_choice ms w).1.log ≡ w.log)
      × ((ensure_tenant_choice ms w).1.pathname ≡ w.pathname)
unfolding ensure_tenant_choice
ensure_tenant_choice-log w ms = ground arith
