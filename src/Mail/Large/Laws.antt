-- ===== src/Mail/Large/Laws.antt =====
-- Every large attachment has its block in the body, and how long a link is announced to live.
use mathlib.Core.List.{append-nil, append_assoc}
use testkit_service.Prelude.{
  ℕ, ◌+◌, ◌/◌, ◌≤◌, String, true, false, some, List, [], ◌∷◌, ◌++◌, ◌≡◌, refl, sym, ap, ◌∙◌,
  length-append, ◌⊎◌, inl, inr, arith, map, truthy, length,
}
use testkit_service.Browser.{Browser, Outcome, ok, err, Failure, toasted, success, error}
use testkit_service.Mail.Attach.{LocalFile}
use testkit_service.Mail.Markup.{LargeAttachment, large_attachment_block_html}
use testkit_service.Mail.Large.{
  Gateway, LargeCompose, days_until, expires_days, prepare, attached, upload_large,
  handle_large_file_change, done_text, failed_text,
}

-- The body shows the attachments: a block for each, in their order.
abbrev pub IsShown : Gateway → LargeCompose → Type 0
IsShown g s = s.blocks ≡ map (large_attachment_block_html g.decimal) s.large

Outcome-cases :
    {A : Type 0} (o : Outcome A × Browser)
    → ((a : A) × (w : Browser) × (o ≡ (ok a, w)))
      ⊎ ((e : Failure) × (w : Browser) × (o ≡ (err e, w)))
Outcome-cases (ok a, w) = inl (a, w, refl)
Outcome-cases (err e, w) = inr (e, w, refl)

map-append :
    {A B : Type 0} (f : A → B) (xs : List A) (x : A) → map f (xs ++ x ∷ []) ≡ map f xs ++ f x ∷ []
map-append f [] x = refl
map-append f (y ∷ ys) x = ap (λ l. f y ∷ l) (map-append f ys x)

module _ (g : Gateway) where
  -- What a run keeps: blocks and list agree, a key was taken for each new attachment, and the list
  -- only grows at its end.
  pub record IsKept (s r : LargeCompose) : Type 0 where
    pub shown : IsShown g r
    pub counted : length r.large + s.next_key ≡ length s.large + r.next_key
    pub grown : (more : List LargeAttachment) × (r.large ≡ s.large ++ more)

  upload_large-IsKept :
      (file : LocalFile) (s : LargeCompose) (w : Browser)
      → IsShown g s
      → (r : LargeCompose) × (v : Browser) × (upload_large g file s w ≡ (ok r, v))
        × (r.uploading ≡ false)
        × IsKept s r
  unfolding upload_large
  upload_large-IsKept file s w shown = elim (Outcome-cases (prepare g file s.next_key w)) [
    | inl (att, v, e) ↦ (
      record (attached g att s) { uploading = false },
      record v { log = toasted success (done_text g file) ∷ v.log },
      rw e,
      refl,
      record {
        shown =
            ap (λ l. l ++ large_attachment_block_html g.decimal att ∷ []) shown
            ∙ sym (map-append (large_attachment_block_html g.decimal) s.large att);
        counted = omega (arith, length-append s.large (att ∷ []));
        grown = (att ∷ [], refl);
      },
    )
    | inr (f, v, e) ↦ (
      record s { uploading = false },
      record v { log = toasted error (failed_text g file f) ∷ v.log },
      rw e,
      refl,
      record { shown = shown; counted = refl; grown = ([], sym (append-nil s.large)) },
    )
  ]

  -- Whatever the hash, the servers and the storage answer, and whatever files are picked, the handler
  -- comes to its end without a throw. If before it the blocks in the body were those of the
  -- attachments, in their order, so they are after it; the list has only grown at its end, and one key
  -- was taken for each new attachment.
  pub handle_large_file_change-IsKept :
      (files : List LocalFile) (s : LargeCompose) (w : Browser)
      → IsShown g s
      → (r : LargeCompose) × (v : Browser) × (handle_large_file_change g files s w ≡ (ok r, v))
        × IsKept s r
  unfolding handle_large_file_change
  handle_large_file_change-IsKept [] s w shown =
      (s, w, refl, record { shown = shown; counted = refl; grown = ([], sym (append-nil s.large)) })
  handle_large_file_change-IsKept (file ∷ files) s w shown =
      let (s', w', run, idle, one) = upload_large-IsKept file s w shown in
      let (r, v, rest, more) = handle_large_file_change-IsKept files s' w' one.shown in
      (
        r,
        v,
        rw run rest,
        record {
          shown = more.shown;
          counted = omega (arith, one.counted, more.counted);
          grown = (
            one.grown.0 ++ more.grown.0,
            more.grown.1
                ∙ ap (λ l. l ++ more.grown.0) one.grown.1
                ∙ append_assoc s.large one.grown.0 more.grown.0,
          );
        },
      )

  -- A link that storage keeps for thirty days from now, in the seconds that the server counts, is
  -- announced as valid for one day: the code takes the seconds for milliseconds. The clock is past
  -- the thirty-first day of 1970, the time's text is read as its number, and it is not empty.
  pub expires_days-one :
      (text : String) (now : ℕ)
      → truthy (some text) ≡ true
      → 2678400000 ≤ now
      → g.number text ≡ some (now / 1000 + 2592000)
      → expires_days g (some text) now ≡ some 1
  unfolding expires_days days_until
  expires_days-one text now full late number = rw (full, number) (ground arith)
