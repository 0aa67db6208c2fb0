-- ===== src/ChunkGuard.antt =====
-- web/src/utils/chunkGuard.ts: the reload of a tab whose chunks are gone, at most one in a window of
-- time. `Number` of a text and the text of a number are parameters; times are milliseconds.
pub mod Laws
use testkit_service.Prelude.{
  ℕ, String, Bool, true, false, Option, none, some, List, [], ◌∷◌, ◌+◌, ◌-◌, ◌||◌, not, ltb, get_or,
  if◌then◌else◌, ◌==◌,
}
use testkit_service.Browser.{
  Browser, M, ok, err, pure, storage_error, ◌>>=◌, ◌>>◌, emit, reloaded, update,
}

abbrev pub reloaded_at_key : String
reloaded_at_key = "testkit_chunk_reloaded_at"

abbrev pub reload_cooldown_ms : ℕ
reload_cooldown_ms = 30000

-- `Number` and `String` on times: `of_text` is none where the number is NaN.
pub record Clockwork : Type 0 where
  pub of_text : String → Option ℕ
  pub to_text : ℕ → String

-- What a listener of `error` receives: a script error, or the failure of an element by its tag.
pub data ErrorSource : Type 0 where
  script_error no_target : ErrorSource
  tagged : String → ErrorSource

-- isStaleResource
unfoldable pub is_stale_resource : ErrorSource → Bool
is_stale_resource script_error = false
is_stale_resource no_target = false
is_stale_resource (tagged tag) = tag == "SCRIPT" || tag == "LINK"

-- `sessionStorage.getItem(k)` and `.setItem(k, v)`
abbrev session_get : String → M (Option String)
session_get k w = if w.blocked then (err storage_error, w) else (ok (w.session k), w)

abbrev session_set : String → String → M (Unit {0})
session_set k v w =
    if w.blocked
    then (err storage_error, w)
    else (if w.full
        then (err storage_error, w)
        else (ok tt, record w { session = update w.session k (some v) }))

-- `now - last < RELOAD_COOLDOWN_MS`, over the integers; a comparison with NaN is false
abbrev recent : ℕ → Option ℕ → Bool
recent now none = false
recent now (some last) = ltb now (last + reload_cooldown_ms)

-- withinCooldown
unfoldable pub within_cooldown : Clockwork → ℕ → M Bool
within_cooldown clock now = do
  last ← session_get reloaded_at_key
  pure (recent now (elim last [ none ↦ some 0 | some text ↦ clock.of_text text ]))

-- the listener that installChunkReloadGuard adds, at the time `now`
unfoldable pub on_error : Clockwork → ℕ → ErrorSource → M (Unit {0})
on_error clock now source = if not (is_stale_resource source) then pure tt else (do
  cooling ← within_cooldown clock now
  let reload = do session_set reloaded_at_key (clock.to_text now); emit reloaded
  if cooling then pure tt else reload)
