-- ===== src/Editor.antt =====
-- The editor of emails (web/src/components/RichEmailEditor/index.tsx): its two modes, and the text that
-- it tells its host. The browser's document is a parameter: what `innerHTML` reads and what setting it
-- leaves, and `insertAdjacentHTML`.
pub mod Laws
use testkit_service.Prelude.{String, Bool, true, false, List, [], ◌∷◌, if◌then◌else◌, nonempty}
use Prim.Native.String as Text
use testkit_service.Mail.Text.{trim}

-- The hooks of the editor, the content of its area, and the last text of onHtmlChange. In `source` mode
-- the area is hidden and stays as it is.
pub record Editor (Dom : Type 0) : Type 0 where
  pub source : Bool
  pub source_value : String
  pub area : Dom
  pub link_open : Bool
  pub link_url : String
  pub host : String

-- What the user and the host do. A tool, and a link, are what the browser makes of the area.
pub data Event (Dom : Type 0) : Type 0 where
  area_edited : Dom → Event Dom
  area_left : Event Dom
  tool_used : (Dom → Dom) → Event Dom
  link_toggled : Bool → Event Dom
  link_typed : String → Event Dom
  link_inserted : (String → Dom → Dom) → Event Dom
  source_typed : String → Event Dom
  mode_toggled : Event Dom
  html_set html_appended : String → Event Dom

module _ {Dom : Type 0} (read : Dom → String) (write : String → Dom)
    (insert : String → Dom → Dom) where
  -- notify
  unfoldable pub notify : Editor Dom → Editor Dom
  notify e = record e { host = read e.area }

  -- exec: a hidden area takes no focus, so the command does not change it; the host is told all the same
  unfoldable pub exec : (Dom → Dom) → Editor Dom → Editor Dom
  unfolding notify
  exec command e = notify (record e { area = if e.source then e.area else command e.area })

  -- insertLink
  unfoldable pub insert_link : (String → Dom → Dom) → Editor Dom → Editor Dom
  unfolding exec
  insert_link create e =
      let url = if nonempty (trim e.link_url) then trim e.link_url else "https://" in
      record (exec (create url) e) { link_open = false; link_url = "" }

  -- toggleMode
  unfoldable pub toggle_mode : Editor Dom → Editor Dom
  toggle_mode e =
      if e.source
      then record e { area = write e.source_value; source = false; host = e.source_value }
      else record e { source_value = read e.area; source = true; host = read e.area }

  -- setHtml and appendHtml of the handle
  unfoldable pub set_html : String → Editor Dom → Editor Dom
  set_html html e =
      if e.source
      then record e { source_value = html; host = html }
      else record e { area = write html; host = html }

  unfoldable pub append_html : String → Editor Dom → Editor Dom
  unfolding notify
  append_html html e =
      let next = Text.◌++◌ e.source_value html in
      if e.source
      then record e { source_value = next; host = next }
      else notify (record e { area = insert html e.area })

  -- one event: the area takes no input while it is hidden, and the source none while it is not shown
  unfoldable pub act : Event Dom → Editor Dom → Editor Dom
  unfolding notify exec insert_link toggle_mode set_html append_html
  act (area_edited d) e = if e.source then e else notify (record e { area = d })
  act area_left e = if e.source then e else notify e
  act (tool_used command) e = exec command e
  act (link_toggled open_) e = record e { link_open = open_ }
  act (link_typed url) e = record e { link_url = url }
  act (link_inserted create) e = insert_link create e
  act (source_typed s) e = if e.source then record e { source_value = s; host = s } else e
  act mode_toggled e = toggle_mode e
  act (html_set html) e = set_html html e
  act (html_appended html) e = append_html html e

  unfoldable pub run : List (Event Dom) → Editor Dom → Editor Dom
  run [] e = e
  run (a ∷ events) e = run events (act a e)

  -- the editor at first, with no initial text
  abbrev pub blank : Editor Dom
  blank = record {
    source = false;
    source_value = "";
    area = write "";
    link_open = false;
    link_url = "";
    host = "";
  }
