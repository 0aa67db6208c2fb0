-- ===== src/Editor/Laws.antt =====
-- What the host holds is what the editor shows.
use testkit_service.Prelude.{
  String, Bool, true, false, List, [], ◌∷◌, ◌≡◌, ◌≢◌, ◌⊎◌, inl, inr, refl,
}
use testkit_service.Editor.{
  Editor, Event, area_edited, area_left, tool_used, link_toggled, link_typed, link_inserted,
  source_typed, mode_toggled, html_set, html_appended, act, run,
}

true≢false : ◌≢◌ {A = Bool} true false
true≢false e = cc

-- An event that formats.
abbrev pub is_format : {Dom : Type 0} → Event Dom → Bool
is_format (tool_used command) = true
is_format (link_inserted create) = true
is_format _ = false

module _ {Dom : Type 0} (read : Dom → String) (write : String → Dom)
    (insert : String → Dom → Dom) where
  -- The host's text is the source, or what the area reads, or the text that the area was set to.
  abbrev pub IsShown : Bool → Editor Dom → Type 0
  IsShown true e = e.host ≡ e.source_value
  IsShown false e = (e.host ≡ read e.area) ⊎ (e.area ≡ write e.host)

  -- No formatting while the source is shown.
  abbrev pub Formats : List (Event Dom) → Editor Dom → Type 0
  Formats [] e = Unit
  Formats (a ∷ events) e =
      (is_format a ≡ true → e.source ≡ false) × Formats events (act read write insert a e)

  abbrev Keeps : Event Dom → Type 0
  Keeps a =
      (source_value : String) (area : Dom) (link_open : Bool) (link_url host : String)
      → ((source : Bool)
          → let e : Editor Dom = record {
            source = source;
            source_value = source_value;
            area = area;
            link_open = link_open;
            link_url = link_url;
            host = host;
          } in
            (is_format a ≡ true → source ≡ false)
            → IsShown source e
            → IsShown (act read write insert a e).source (act read write insert a e))

  act-IsShown : (a : Event Dom) → Keeps a
  unfolding act
  act-IsShown (area_edited d) v ar o u h true f i = i
  act-IsShown (area_edited d) v ar o u h false f i = inl refl
  act-IsShown area_left v ar o u h true f i = i
  act-IsShown area_left v ar o u h false f i = inl refl
  act-IsShown (tool_used c) v ar o u h true f i = absurd (true≢false (f refl))
  act-IsShown (tool_used c) v ar o u h false f i = inl refl
  act-IsShown (link_toggled p) v ar o u h true f i = i
  act-IsShown (link_toggled p) v ar o u h false f i = i
  act-IsShown (link_typed s) v ar o u h true f i = i
  act-IsShown (link_typed s) v ar o u h false f i = i
  act-IsShown (link_inserted c) v ar o u h true f i = absurd (true≢false (f refl))
  act-IsShown (link_inserted c) v ar o u h false f i = inl refl
  act-IsShown (source_typed s) v ar o u h true f i = refl
  act-IsShown (source_typed s) v ar o u h false f i = i
  act-IsShown mode_toggled v ar o u h true f i = inr refl
  act-IsShown mode_toggled v ar o u h false f i = refl
  act-IsShown (html_set s) v ar o u h true f i = refl
  act-IsShown (html_set s) v ar o u h false f i = inr refl
  act-IsShown (html_appended s) v ar o u h true f i = refl
  act-IsShown (html_appended s) v ar o u h false f i = inl refl

  -- As long as nothing is formatted while the source is shown, whatever the user and the host do, in any
  -- order: the host holds the text that is shown, that is the source, or, in the other mode, a text that
  -- the area reads as or was set to.
  pub run-IsShown :
      (events : List (Event Dom)) (e : Editor Dom)
      → Formats events e
      → IsShown e.source e
      → IsShown (run read write insert events e).source (run read write insert events e)
  unfolding run
  run-IsShown [] e f i = i
  run-IsShown (a ∷ events) e f i =
      run-IsShown events (act read write insert a e) f.1
        (act-IsShown a e.source_value e.area e.link_open e.link_url e.host e.source f.0 i)

  -- A tool used while the source is shown tells the host what the hidden area reads, and the source stays
  -- on the screen: where the source was changed since, the host no longer holds what is shown.
  pub act-stale_area :
      (e : Editor Dom) (command : Dom → Dom)
      → e.source ≡ true
      → read e.area ≢ e.source_value
      → let e' = act read write insert (tool_used command) e in
        (e'.source ≡ true) × (e'.source_value ≡ e.source_value) × (e'.host ≢ e'.source_value)
  unfolding act
  act-stale_area e command shown changed = (shown, refl, simp shown changed)
