-- ===== src/Tests/Mail.antt =====
-- Attachments and escaped texts at concrete files and names.
use testkit_service.Prelude.{ℕ, true, false, String, Option, none, some, [], ◌∷◌, ◌≡◌, refl, arith}
use testkit_service.Mail.Attach.{LocalFile, IsAccepted}
use testkit_service.Browser.{Browser, ok}
use testkit_service.Request.{replied}
use testkit_service.Mail.Large.{Gateway, LargeCompose, stored, handle_large_file_change}
use testkit_service.Mail.Large.Laws.{IsKept, handle_large_file_change-IsKept}
use testkit_service.Tests.Data.{empty_at}
use testkit_service.Mail.Markup.{Avoids, escape_html_attr, escape_html_attr-Avoids}

abbrev photo : LocalFile
photo = record { name = "photo.png"; mime = "image/png"; size = 2000000 }

abbrev read_all : LocalFile → Option String
read_all file = some "AAAA"

photo-IsAccepted : IsAccepted read_all [] photo
photo-IsAccepted = ("AAAA", refl, omega arith, omega arith)

-- Three files of two megabytes each end up beside one another.

escape_html_attr-Avoids_example :
    Avoids b'"' (escape_html_attr "a\"<b&c") × Avoids b'<' (escape_html_attr "a\"<b&c")
escape_html_attr-Avoids_example = escape_html_attr-Avoids "a\"<b&c"

-- A gateway that takes every file, with a clock at the first of January 2026.
abbrev now_ms : ℕ
now_ms = 1767225600000

abbrev gateway : Gateway
gateway = record {
  md5 = λ _. ok "d41d8cd98f00b204e9800998ecf8427e";
  uploads = λ _ _. replied (record {
    instant = true;
    file_id = some "f1";
    upload_token = none;
    upload_url = none;
    headers = [];
  });
  storage = λ _ _. stored;
  confirms = λ _ _. replied none;
  links = λ _ _. replied (record { link_token = some "k1"; retain_until = some "1769817600" });
  now = λ _. now_ms;
  number = λ _. some 1769817600;
  decimal = λ _. "0";
  origin = "https://console.example";
  error_message = λ _. none;
}

abbrev blank_large : LargeCompose
blank_large = record { large = []; next_key = 0; blocks = []; uploading = false }

handle_large_file_change-IsKept_example :
    (r : LargeCompose) × (v : Browser) × (handle_large_file_change gateway
        (photo ∷ photo ∷ [])
        blank_large
        (empty_at "/message/send")
      ≡ (ok r, v))
    × IsKept gateway blank_large r
handle_large_file_change-IsKept_example =
    handle_large_file_change-IsKept gateway (photo ∷ photo ∷ []) blank_large
      (empty_at "/message/send") refl
