-- ===== src/Identity/Laws.antt =====
-- What a read of the stored user sees, and where each type of user lands.
use testkit_service.Prelude.{Option, none, some, ◌≡◌, arith, truthy, get_or, if◌then◌else◌}
use testkit_service.Browser.{Browser, ok, user_key}
use testkit_service.Identity.{User, Codec, Parsed, invalid, falsy, object, read_user}

abbrev pub of_parsed : Parsed → Option User
of_parsed invalid = none
of_parsed falsy = none
of_parsed (object u) = some u

abbrev pub seen_user : Codec → Browser → Option User
seen_user json w =
    if w.blocked
    then none
    else (if truthy (w.local user_key)
        then of_parsed (json.parse (get_or (w.local user_key) ""))
        else none)

-- A read never throws and changes nothing, whatever is stored.
pub read_user_lem : (json : Codec) (w : Browser) → read_user json w ≡ (ok (seen_user json w), w)
unfolding read_user
read_user_lem json w = ground arith
