-- ===== src/Tests/Data.antt =====
-- A codec of users that reads back what it writes, and browsers that hold a session.
use Prim.Native.Char.{Char, char, code}
use Prim.Native.String.{String, [], ◌∷◌}
use mathlib.Core.List
use text.Mathlib.TextLemmas.{cons≢nil}
use testkit_service.ChunkGuard.{Clockwork}
use testkit_service.ChunkGuard.Laws.{IsExact}
use testkit_service.Prelude.{
  ℕ, zero, suc, true, false, Option, none, some, ◌≡◌, refl, ap, eqb, nonempty, nonempty_of_ne,
  if◌then◌else◌,
}
use testkit_service.Browser.{Browser, update, token_key, user_key, choice_key}
use testkit_service.Browser.Laws.{IsUsable}
use testkit_service.Access.Laws.{HasSession}
use testkit_service.Identity.{
  User, Codec, IsRoundTrip, Parsed, invalid, object, platform, tenant_admin,
}

-- Each character of a text behind a mark, and an end mark twice.
abbrev go_on : Char
go_on = char 99 tt

abbrev stop : Char
stop = char 101 tt

unfoldable put_text : String → String → String
put_text [] k = stop ∷ stop ∷ k
put_text (c ∷ s) k = go_on ∷ c ∷ put_text s k

unfoldable get_text : String → String × String
get_text [] = ([], [])
get_text (m ∷ []) = ([], [])
get_text (m ∷ c ∷ s) =
    let rest = get_text s in if eqb (code m) 99 then (c ∷ rest.0, rest.1) else ([], s)

get-put_text : (s k : String) → get_text (put_text s k) ≡ (s, k)
unfolding get_text put_text
get-put_text [] k = refl
get-put_text (c ∷ s) k = rw (get-put_text s k)

unfoldable put_option : Option String → String → String
unfolding put_text
put_option none k = stop ∷ k
put_option (some s) k = go_on ∷ put_text s k

unfoldable get_option : String → Option String × String
get_option [] = (none, [])
get_option (m ∷ s) =
    let rest = get_text s in if eqb (code m) 99 then (some rest.0, rest.1) else (none, s)

get-put_option : (o : Option String) (k : String) → get_option (put_option o k) ≡ (o, k)
unfolding get_option put_option
get-put_option none k = refl
get-put_option (some s) k = rw (get-put_text s k)

pub print_user : User → String
print_user u = go_on ∷ put_option u.user_type (put_option u.nickname (put_option u.username []))

pub parse_user : String → Parsed
parse_user [] = invalid
parse_user (m ∷ s) =
    let a = get_option s in
    let b = get_option a.1 in
    let c = get_option b.1 in object (record { user_type = a.0; nickname = b.0; username = c.0 })

abbrev pub json : Codec
json = record { parse = parse_user; print = print_user }

parse-print_user : (u : User) → parse_user (print_user u) ≡ object u
unfolding parse_user print_user
parse-print_user u = rw (
  get-put_option u.user_type (put_option u.nickname (put_option u.username [])),
  get-put_option u.nickname (put_option u.username []),
  get-put_option u.username [],
)

print_user-nonempty : (u : User) → nonempty (print_user u) ≡ true
unfolding print_user
print_user-nonempty u = nonempty_of_ne _ cons≢nil

pub json-IsRoundTrip : IsRoundTrip json
json-IsRoundTrip = record { parse_print = parse-print_user; print_nonempty = print_user-nonempty }

abbrev pub staff : User
staff = record { user_type = some platform; nickname = some "Ann"; username = some "ann" }

abbrev pub admin : User
admin = record { user_type = some tenant_admin; nickname = none; username = some "bob" }

-- A browser with nothing stored, at an address.
abbrev pub empty_at : String → Browser
empty_at path = record {
  local = λ _. none;
  session = λ _. none;
  blocked = false;
  full = false;
  pathname = path;
  log = List.[];
}

-- A browser with the session of a user, and a tenant choice.
abbrev pub with_session : User → String → String → Browser
with_session u choice path = record (empty_at path) {
  local =
      update (update (update (λ _. none) token_key (some "t0")) user_key (some (print_user u)))
        choice_key (some choice);
}

pub with_session-HasSession :
    (u : User) (choice path : String) → HasSession json (with_session u choice path) u
with_session-HasSession u choice path = record {
  token = refl;
  cached = print_user-nonempty u;
  parsed = parse-print_user u;
}

pub with_session-IsUsable :
    (u : User) (choice path : String) → IsUsable (with_session u choice path)
with_session-IsUsable u choice path = record { unblocked = refl; writable = refl }

-- A clock whose texts have one mark for each millisecond.
pub marks : ℕ → String
marks zero = []
marks (suc n) = char 49 tt ∷ marks n

pub count_marks : String → ℕ
count_marks [] = 0
count_marks (c ∷ s) = suc (count_marks s)

count_marks-marks : (n : ℕ) → count_marks (marks n) ≡ n
unfolding count_marks marks
count_marks-marks zero = refl
count_marks-marks (suc n) = ap suc (count_marks-marks n)

abbrev pub tally : Clockwork
tally = record { of_text = λ s. some (count_marks s); to_text = marks }

pub tally-IsExact : IsExact tally
tally-IsExact = record { read_back = λ n. ap some (count_marks-marks n) }
