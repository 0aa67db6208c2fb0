-- ===== src/Mail/Attach.antt =====
-- Inline attachments of the compose page: handleFileChange. A file's content is read by a parameter,
-- `none` where the read fails. `shown` is the list that the handler closed over when it was rendered.
use native.Mathlib.Decide.{dec_lt}
use testkit_service.Prelude.{
  ℕ, ◌+◌, ◌≤◌, String, Option, none, some, List, [], ◌∷◌, ◌++◌, ◌≡◌, arith, ltb, All, if◌then◌else◌,
  ◌⊎◌, inl, inr, Option-cases, lt→ltb, not_lt→ltb,
}
use testkit_service.Mail.Size.{SizeText, format_bytes, max_inline_bytes, max_total_inline_bytes}

-- File, the fields that the page reads
pub record LocalFile : Type 0 where
  pub name : String
  pub mime : String
  pub size : ℕ

-- FileAttachment
pub record FileAttachment : Type 0 where
  pub key : ℕ
  pub filename : String
  pub mime_type : String
  pub size_bytes : ℕ
  pub content : String

-- The messages of the handler: over the inline limit, over the total, unreadable.
pub data Notice : Type 0 where
  over_inline : (name : String) → SizeText → Notice
  over_total : Notice
  unreadable : (name : String) → Notice

-- The state that the handler changes; messages newest first.
pub record Compose : Type 0 where
  pub attachments : List FileAttachment
  pub next_key : ℕ
  pub notices : List Notice

abbrev pub total_bytes : List FileAttachment → ℕ
total_bytes [] = 0
total_bytes (a ∷ as_) = a.size_bytes + total_bytes as_

module _ (read : LocalFile → Option String) (shown : List FileAttachment) where
  -- the `try` block
  abbrev attach : LocalFile → Option String → Compose → Compose
  attach file none s = record s { notices = unreadable file.name ∷ s.notices }
  attach file (some content) s = record s {
    attachments =
        s.attachments
        ++ record {
          key = s.next_key;
          filename = file.name;
          mime_type = file.mime;
          size_bytes = file.size;
          content = content;
        }
          ∷ [];
    next_key = s.next_key + 1;
  }

  -- one round of the loop
  unfoldable pub attach_file : LocalFile → Compose → Compose
  unfolding format_bytes
  attach_file file s =
      if ltb max_inline_bytes file.size
      then record s { notices = over_inline file.name (format_bytes file.size) ∷ s.notices }
      else (if ltb max_total_inline_bytes (total_bytes shown + file.size)
          then record s { notices = over_total ∷ s.notices }
          else attach file (read file) s)

  -- handleFileChange
  unfoldable pub handle_file_change : List LocalFile → Compose → Compose
  handle_file_change [] s = s
  handle_file_change (file ∷ files) s = handle_file_change files (attach_file file s)

total_bytes-append :
    (as_ bs : List FileAttachment) → total_bytes (as_ ++ bs) ≡ total_bytes as_ + total_bytes bs
total_bytes-append [] bs = omega arith
total_bytes-append (a ∷ as_) bs = omega (arith, total_bytes-append as_ bs)

abbrev pub total_size : List LocalFile → ℕ
total_size [] = 0
total_size (f ∷ fs) = f.size + total_size fs

All-append :
    (P : FileAttachment → Type 0) (as_ : List FileAttachment) (b : FileAttachment)
    → All P as_
    → P b
    → All P (as_ ++ b ∷ [])
All-append P [] b h p = (p, tt)
All-append P (a ∷ as_) b (h, hs) p = (h, All-append P as_ b hs p)

-- One round: the file is over a limit or unreadable and the list stays, or it is at most the inline
-- limit, fits the total beside the shown list, and is added at the end.
abbrev pub new_attachment : LocalFile → ℕ → String → FileAttachment
new_attachment f key content = record {
  key = key;
  filename = f.name;
  mime_type = f.mime;
  size_bytes = f.size;
  content = content;
}

attach_file-cases :
    (read : LocalFile → Option String) (shown : List FileAttachment) (f : LocalFile) (s : Compose)
    → ((attach_file read shown f s).attachments ≡ s.attachments)
      ⊎ ((content : String) × (f.size ≤ max_inline_bytes)
          × (total_bytes shown + f.size ≤ max_total_inline_bytes)
          × ((attach_file read shown f s).attachments
              ≡ s.attachments ++ new_attachment f s.next_key content ∷ []))
unfolding attach_file
attach_file-cases read shown f s = elim (Option-cases (read f)) [
  | inl unread ↦ inl (ground arith)
  | inr (content, e) ↦ elim (dec_lt max_inline_bytes f.size) [
    | yes big ↦ inl (rw (lt→ltb max_inline_bytes f.size big))
    | no small ↦ elim (dec_lt max_total_inline_bytes (total_bytes shown + f.size)) [
      | yes over ↦ inl (
          rw (
            not_lt→ltb max_inline_bytes f.size small,
            lt→ltb max_total_inline_bytes (total_bytes shown + f.size) over,
          ))
      | no fits ↦ inr (
        content,
        omega arith,
        omega arith,
        rw (
          not_lt→ltb max_inline_bytes f.size small,
          not_lt→ltb max_total_inline_bytes (total_bytes shown + f.size) fits,
          e,
        ),
      )
    ]
  ]
]

-- A file that passes both tests of a round, and can be read.
abbrev pub IsAccepted : (LocalFile → Option String) → List FileAttachment → LocalFile → Type 0
IsAccepted read shown f =
    (content : String) × (read f ≡ some content)
    × (f.size ≤ max_inline_bytes)
    × (total_bytes shown + f.size ≤ max_total_inline_bytes)

attached_total :
    (read : LocalFile → Option String) (shown : List FileAttachment) (f : LocalFile) (s : Compose)
    → IsAccepted read shown f
    → total_bytes (attach_file read shown f s).attachments ≡ total_bytes s.attachments + f.size
unfolding attach_file
attached_total read shown f s (content, e, small, fits) =
    rw
      (
        not_lt→ltb max_inline_bytes f.size (omega arith),
        not_lt→ltb max_total_inline_bytes (total_bytes shown + f.size) (omega arith),
        e,
      )
      (omega (arith, total_bytes-append s.attachments (new_attachment f s.next_key content ∷ [])))

-- If no attachment is over the inline limit before a pick, none is after it, whatever is picked and
-- whatever list the limits were weighed against.
pub handle_file_change-le_inline :
    (read : LocalFile → Option String) (shown : List FileAttachment) (files : List LocalFile)
    (s : Compose)
    → All (λ a. a.size_bytes ≤ max_inline_bytes) s.attachments
    → All (λ a. a.size_bytes ≤ max_inline_bytes) (handle_file_change read shown files s).attachments
unfolding handle_file_change
handle_file_change-le_inline read shown [] s h = h
handle_file_change-le_inline read shown (f ∷ fs) s h =
    handle_file_change-le_inline read shown fs (attach_file read shown f s)
      (after_one (attach_file-cases read shown f s))
  where
    after_one :
        ((attach_file read shown f s).attachments ≡ s.attachments)
          ⊎ ((content : String) × (f.size ≤ max_inline_bytes)
              × (total_bytes shown + f.size ≤ max_total_inline_bytes)
              × ((attach_file read shown f s).attachments
                  ≡ s.attachments ++ new_attachment f s.next_key content ∷ []))
        → All (λ a. a.size_bytes ≤ max_inline_bytes) (attach_file read shown f s).attachments
    after_one (inl same) = rw same h
    after_one (inr (content, small, fits, e)) =
        rw e (All-append (λ a. a.size_bytes ≤ max_inline_bytes) s.attachments _ h small)

-- One file at a time keeps the total limit: if the shown list is the current one and within the
-- limit, so is the list after a pick of a single file.
pub handle_file_change-le_total :
    (read : LocalFile → Option String) (file : LocalFile) (s : Compose)
    → total_bytes s.attachments ≤ max_total_inline_bytes
    → total_bytes (handle_file_change read s.attachments (file ∷ []) s).attachments
      ≤ max_total_inline_bytes
unfolding handle_file_change
handle_file_change-le_total read file s h = after_one (attach_file-cases read s.attachments file s)
  where
    after_one :
        ((attach_file read s.attachments file s).attachments ≡ s.attachments)
          ⊎ ((content : String) × (file.size ≤ max_inline_bytes)
              × (total_bytes s.attachments + file.size ≤ max_total_inline_bytes)
              × ((attach_file read s.attachments file s).attachments
                  ≡ s.attachments ++ new_attachment file s.next_key content ∷ []))
        → total_bytes (attach_file read s.attachments file s).attachments ≤ max_total_inline_bytes
    after_one (inl same) = rw same h
    after_one (inr (content, small, fits, e)) = rw e (
        omega
          (arith, total_bytes-append s.attachments (new_attachment file s.next_key content ∷ [])))

-- Several files at once: every file is weighed against the list that was shown, never against the
-- files of the same pick. All that pass alone are attached, and the total grows by all their sizes.
pub handle_file_change-total :
    (read : LocalFile → Option String) (shown : List FileAttachment) (files : List LocalFile)
    (s : Compose)
    → All (IsAccepted read shown) files
    → total_bytes (handle_file_change read shown files s).attachments
      ≡ total_bytes s.attachments + total_size files
unfolding handle_file_change
handle_file_change-total read shown [] s h = omega arith
handle_file_change-total read shown (f ∷ fs) s (accepted, rest) = omega (
  arith,
  handle_file_change-total read shown fs (attach_file read shown f s) rest,
  attached_total read shown f s accepted,
)
