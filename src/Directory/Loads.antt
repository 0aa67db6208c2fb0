-- ===== src/Directory/Loads.antt =====
-- The loading of the directory's tabs (web/src/pages/Reference/Directory/index.tsx) over what the user
-- picks and the answers that arrive, in any order. A list is a type parameter.
use mathlib.Core.Path.{subst}
use testkit_service.Prelude.{
  ℕ, ◌+◌, String, Bool, true, false, Option, none, some, List, [], ◌∷◌, ◌≡◌, ◌≢◌, eqb, ◌==◌, ◌||◌,
  ap, sym, ◌∙◌, Bool-cases, inl, inr, if◌then◌else◌,
}

-- Domain
pub data Domain : Type 0 where
  countries timezones languages currencies groups : Domain

abbrev number_of : Domain → ℕ
number_of countries = 0
number_of timezones = 1
number_of languages = 2
number_of currencies = 3
number_of groups = 4

abbrev pub same_domain : Domain → Domain → Bool
same_domain d e = eqb (number_of d) (number_of e)

-- the lists that a load of a tab sets: the countries' tab sets all five
abbrev pub sets : Domain → Domain → Bool
sets d e = same_domain d countries || same_domain d e

-- One run of the effect: its place in the order of the runs, and what it closes over.
pub record Load : Type 0 where
  pub place : ℕ
  pub domain : Domain
  pub locale : String

-- The hooks of the page; the run that is not cancelled is the last one.
pub record DirectoryPage (A : Type 0) : Type 0 where
  pub current : Load
  pub loading : Bool
  pub lists : Domain → Option A
  pub version : Option String

pub data Event (A : Type 0) : Type 0 where
  domain_picked : Domain → Event A
  locale_picked : String → Event A
  answered : Load → (Domain → A) → (version : Option String) → Event A
  failed : Load → Event A

module _ {A : Type 0} where
  -- the page after its first effect has started
  unfoldable pub mounted : DirectoryPage A
  mounted = record {
    current = record { place = 0; domain = countries; locale = "zh-Hans" };
    loading = true;
    lists = λ e. none;
    version = none;
  }

  -- the effect runs again, for another tab or locale; the run before it is cancelled
  unfoldable pub start : Domain → String → DirectoryPage A → DirectoryPage A
  start domain locale page = record page {
    current = record { place = page.current.place + 1; domain = domain; locale = locale };
    loading = true;
  }

  abbrev pub is_cancelled : Load → DirectoryPage A → Bool
  is_cancelled load page = if eqb load.place page.current.place then false else true

  -- the lists of an answer, and the end of a run that is not cancelled
  unfoldable pub take_answer :
      Load → (Domain → A) → (version : Option String) → DirectoryPage A → DirectoryPage A
  take_answer load answer version page = if is_cancelled load page then page else record page {
    lists = λ e. if sets load.domain e then some (answer e) else page.lists e;
    version = version;
    loading = false;
  }

  unfoldable pub act : Event A → DirectoryPage A → DirectoryPage A
  unfolding start take_answer
  act (domain_picked d) page =
      if same_domain d page.current.domain then page else start d page.current.locale page
  act (locale_picked l) page =
      if l == page.current.locale then page else start page.current.domain l page
  act (answered load answer version) page = take_answer load answer version page
  act (failed load) page = if is_cancelled load page then page else record page { loading = false }

  unfoldable pub run : List (Event A) → DirectoryPage A → DirectoryPage A
  unfolding act
  run [] page = page
  run (e ∷ es) page = run es (act e page)

  module _ (locale_of : A → String) where
    -- An answer is in the locale that was asked for, and a run has its place alone; the running load does
    -- not fail.
    abbrev pub IsSound : Event A → DirectoryPage A → Type 0
    IsSound (domain_picked d) page = Unit
    IsSound (locale_picked l) page = Unit
    IsSound (answered load answer version) page =
        ((e : Domain) → locale_of (answer e) ≡ load.locale)
        × (eqb load.place page.current.place ≡ true → load ≡ page.current)
    IsSound (failed load) page = eqb load.place page.current.place ≡ false

    abbrev pub AreSound : List (Event A) → DirectoryPage A → Type 0
    AreSound [] page = Unit
    AreSound (e ∷ es) page = IsSound e page × AreSound es (act e page)

    -- What the open tab shows is in the locale that is picked, unless it is being loaded.
    abbrev pub IsCurrent : DirectoryPage A → Type 0
    IsCurrent page =
        page.loading ≡ false
        → (e : Domain) → sets page.current.domain e ≡ true
        → (a : A) → page.lists e ≡ some a
        → locale_of a ≡ page.current.locale

    taken :
        (load : Load) (answer : Domain → A) (version : Option String) (page : DirectoryPage A)
        → IsSound (answered load answer version) page
        → IsCurrent page
        → IsCurrent (take_answer load answer version page)
    unfolding take_answer
    taken load answer version page (sound, alone) h =
        elim (Bool-cases (eqb load.place page.current.place)) [
          | inl last ↦ simp last (λ idle e set_ a here.
              fresh e a (
                subst (λ b. (if b then some (answer e) else page.lists e) ≡ some a)
                  (ap (λ (l : Load). sets l.domain e) (alone last) ∙ set_) here)
              ∙ ap (λ (l : Load). l.locale) (alone last))
          | inr late ↦ simp late h
        ]
      where
        fresh :
            (e : Domain) (a : A)
            → ◌≡◌ {A = Option A} (some (answer e)) (some a)
            → locale_of a ≡ load.locale
        fresh e a same = ap locale_of (sym (unwrap same)) ∙ sound e
          where
            unwrap : ◌≡◌ {A = Option A} (some (answer e)) (some a) → answer e ≡ a
            unwrap same = cc

    act-IsCurrent :
        (e : Event A) (page : DirectoryPage A)
        → IsSound e page
        → IsCurrent page
        → IsCurrent (act e page)
    unfolding act start
    act-IsCurrent (domain_picked d) page s h =
        elim (Bool-cases (same_domain d page.current.domain)) [
          | inl same ↦ simp same h
          | inr other ↦ simp other (λ idle. absurd (busy idle))
        ]
      where
        busy : true ≢ false
        busy e = cc
    act-IsCurrent (locale_picked l) page s h = elim (Bool-cases (l == page.current.locale)) [
      | inl same ↦ simp same h
      | inr other ↦ simp other (λ idle. absurd (busy idle))
    ]
      where
        busy : true ≢ false
        busy e = cc
    act-IsCurrent (answered load answer version) page s h = taken load answer version page s h
    act-IsCurrent (failed load) page s h = simp s h

    -- Whatever tabs and locales are picked and however late the answers arrive, a tab that is not being
    -- loaded shows lists of the picked locale only, if answers are in the locale that was asked for and
    -- the running load does not fail.
    pub run-IsCurrent :
        (es : List (Event A)) (page : DirectoryPage A)
        → AreSound es page
        → IsCurrent page
        → IsCurrent (run es page)
    unfolding run
    run-IsCurrent [] page s h = h
    run-IsCurrent (e ∷ es) page (s, ss) h =
        run-IsCurrent es (act e page) ss (act-IsCurrent e page s h)
