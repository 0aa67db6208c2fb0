-- ===== src/Sms/Encoding.antt =====
-- The segments that a text message is announced to take.
use Prim.Native.Char.{Char, code}
use Prim.Native.String as Text
use testkit_service.Prelude.{
  ℕ, ◌+◌, ◌*◌, ◌<◌, ◌≤◌, String, Bool, true, false, ◌≡◌, ◌⊎◌, inl, inr, refl, arith, eqb, leb, ◌&&◌,
  if◌then◌else◌, Bool-cases, List, [], ◌∷◌, any, all, ◌||◌,
}
use testkit_service.Mail.Text.{every, size}
use testkit_service.Sms.{is_gsm_char, is_gsm_only, gsm_singles, Segments, ceil_div, sms_segments}

-- What the encoding allows: the characters of one message, and of each part of a longer one.
abbrev pub single : String → ℕ
single text = if is_gsm_only text then 160 else 70

abbrev pub multi : String → ℕ
multi text = if is_gsm_only text then 153 else 67

ceil_div_153 : (n : ℕ) → 160 < n → (n ≤ ceil_div n 153 * 153) × (ceil_div n 153 * 153 < n + 153)
ceil_div_153 n h = omega arith

ceil_div_67 : (n : ℕ) → 70 < n → (n ≤ ceil_div n 67 * 67) × (ceil_div n 67 * 67 < n + 67)
ceil_div_67 n h = omega arith

least_153 :
    (n : ℕ)
    → let s : Segments =
        if eqb n 0
        then record { count = 0; per_segment = 0 }
        else record { count = if leb n 160 then 1 else ceil_div n 153; per_segment = 160 } in
      ((n ≡ 0) × (s.count ≡ 0))
      ⊎ (((0 < n) × (n ≤ 160) × (s.count ≡ 1))
          ⊎ ((160 < n) × (n ≤ s.count * 153) × (s.count * 153 < n + 153)))
least_153 n = elim (Bool-cases (eqb n 0)) [
  | inl empty ↦ rw empty (inl (ground arith, refl))
  | inr full ↦ rw full (elim (Bool-cases (leb n 160)) [
    | inl short ↦ rw short (inr (inl (ground arith, ground arith, refl)))
    | inr long ↦
        let h : 160 < n = ground arith in
        rw long (inr (inr (h, (ceil_div_153 n h).0, (ceil_div_153 n h).1)))
  ])
]

least_67 :
    (n : ℕ)
    → let s : Segments =
        if eqb n 0
        then record { count = 0; per_segment = 0 }
        else record { count = if leb n 70 then 1 else ceil_div n 67; per_segment = 70 } in
      ((n ≡ 0) × (s.count ≡ 0))
      ⊎ (((0 < n) × (n ≤ 70) × (s.count ≡ 1))
          ⊎ ((70 < n) × (n ≤ s.count * 67) × (s.count * 67 < n + 67)))
least_67 n = elim (Bool-cases (eqb n 0)) [
  | inl empty ↦ rw empty (inl (ground arith, refl))
  | inr full ↦ rw full (elim (Bool-cases (leb n 70)) [
    | inl short ↦ rw short (inr (inl (ground arith, ground arith, refl)))
    | inr long ↦
        let h : 70 < n = ground arith in
        rw long (inr (inr (h, (ceil_div_67 n h).0, (ceil_div_67 n h).1)))
  ])
]

-- With every character counted once, the announced number of segments is the least that holds the text:
-- none for the empty text, one up to 160 characters, or 70 where one character is not of the GSM set, and
-- above that as many parts of 153, or 67, as that count needs and no more.
pub sms_segments-IsLeast :
    (text : String)
    → let n = size text in
      let count = (sms_segments text).count in
      ((n ≡ 0) × (count ≡ 0))
      ⊎ (((0 < n) × (n ≤ single text) × (count ≡ 1))
          ⊎ ((single text < n) × (n ≤ count * multi text) × (count * multi text < n + multi text)))
unfolding sms_segments
sms_segments-IsLeast text = elim (Bool-cases (is_gsm_only text)) [
  | inl gsm ↦ rw gsm (least_153 (size text))
  | inr other ↦ rw other (least_67 (size text))
]

-- A character outside the basic plane takes two UTF-16 units of the 70 that a message has.
abbrev pub is_astral : Char → Bool
is_astral c = leb 65536 (code c)

unfoldable pub utf16_units : String → ℕ
utf16_units Text.[] = 0
utf16_units (Text.◌∷◌ c s) = utf16_units s + (if is_astral c then 2 else 1)

utf16_units-astral :
    (text : String) → every is_astral text ≡ true → utf16_units text ≡ size text * 2
unfolding utf16_units size
utf16_units-astral Text.[] h = refl
utf16_units-astral (Text.◌∷◌ c s) h = ground (arith, utf16_units-astral s)

any-above :
    (n : ℕ) (xs : List ℕ) → all (λ x. leb x 8364) xs ≡ true → 8364 < n → any (eqb n) xs ≡ false
any-above n [] h m = refl
any-above n (x ∷ xs) h m = ground (arith, any-above n xs)

ranges-above :
    (n : ℕ) (singles : Bool)
    → 8364 < n
    → singles ≡ false
    → ((leb b'A' n && leb n b'Z')
        || (leb b'a' n && leb n b'z')
        || (leb b'0' n && leb n b'9')
        || singles)
      ≡ false
ranges-above n singles h none_of = ground arith

astral-not_gsm : (c : Char) → is_astral c ≡ true → is_gsm_char c ≡ false
unfolding is_gsm_char
astral-not_gsm c h =
    let above : 8364 < code c = ground arith in
    let one : any (eqb (code c)) gsm_singles ≡ false = any-above (code c) gsm_singles refl above in
    ranges-above (code c) _ above one

astral-not_gsm_only :
    (text : String) → every is_astral text ≡ true → 0 < size text → is_gsm_only text ≡ false
unfolding is_gsm_only size
astral-not_gsm_only Text.[] h n = absurd (omega arith)
astral-not_gsm_only (Text.◌∷◌ c s) h n = rw (astral-not_gsm c (ground arith))

announced_67 :
    (n : ℕ)
    → 35 < n
    → let s : Segments =
        if eqb n 0
        then record { count = 0; per_segment = 0 }
        else record { count = if leb n 70 then 1 else ceil_div n 67; per_segment = 70 } in
      (s.per_segment ≡ 70) × (s.count * s.per_segment < n * 2)
announced_67 n h =
    let some_ : eqb n 0 ≡ false = ground arith in
    rw some_ (elim (Bool-cases (leb n 70)) [
      | inl short ↦ rw short (refl, omega arith)
      | inr long ↦
          let above : 70 < n = ground arith in
          rw long (refl, omega (arith, (ceil_div_67 n above).1))
    ])

-- A text of more than 35 characters that all take two UTF-16 units, such as emoji, is announced in
-- segments of 70, and takes more UTF-16 units than the announced number of these segments holds.
pub sms_segments-astral :
    (text : String)
    → every is_astral text ≡ true
    → 35 < size text
    → let s = sms_segments text in
      (s.per_segment ≡ 70) × (s.count * s.per_segment < utf16_units text)
unfolding sms_segments
sms_segments-astral text h lo =
    let other : is_gsm_only text ≡ false = astral-not_gsm_only text h (ground arith) in
    simp (other, utf16_units-astral text h) (announced_67 (size text) lo)
