-- ===== src/Web/Chat/Attachments/Matches.antt =====
-- Where the pattern of an attached image matches.
use rag_chat_cli.Prelude.{
  ℕ, Bool, true, false, not, ◌&&◌, List, [], ◌∷◌, ◌++◌, append-nil, append_assoc, reverse, all,
  Option, none, some, get_or, ◌==◌, ◌≡◌, refl, ap, ◌∙◌, arith, if_rec, Bool-cases, inl, inr,
}
use rag_chat_cli.Text.{Text, is_empty, starts_with, trim_start, trim}
use rag_chat_cli.Text.Trims.{all-reverse, all-trim_start}
use rag_chat_cli.Web.Chat.Attachments.{
  AssetOut, AttachedImage, is_unsafe, blanked, sanitize_attachment_line, described,
  format_image_attachment, after_breaks, until, literal, description_of, closed, linked, named,
  match_image,
}

abbrev is_safe : ℕ → Bool
is_safe c = not (is_unsafe c)

all-blanked : (inside : Bool) (s : Text) → all is_safe (blanked inside s) ≡ true
unfolding blanked
all-blanked inside [] = refl
all-blanked inside (c ∷ s) = ground (arith, all-blanked true s, all-blanked false s)

-- A line of an attachment has no break and no bracket.
all-sanitize_attachment_line : (value : Text) → all is_safe (sanitize_attachment_line value) ≡ true
unfolding sanitize_attachment_line trim
all-sanitize_attachment_line value =
    let once = trim_start (blanked false value) in
    all-reverse is_safe (trim_start (reverse once)) (
      all-trim_start is_safe (reverse once) (
        all-reverse is_safe once
          (all-trim_start is_safe (blanked false value) (all-blanked false value))))

until-append :
    (stop : ℕ) (t r : Text)
    → all (λ c. not (c == stop)) t ≡ true
    → until stop (t ++ r) ≡ (t ++ (until stop r).0, (until stop r).1)
unfolding until
until-append stop [] r h = refl
until-append stop (c ∷ t) r h =
    if_rec (λ o. o ≡ (c ∷ (t ++ (until stop r).0), (until stop r).1)) (c == stop)
      (λ e. absurd (ground (arith, h, e)))
      (λ e. ap (λ o. (c ∷ o.0, o.1)) (until-append stop t r (ground (arith, h))))

no_break : (d : Text) → all is_safe d ≡ true → all (λ c. not (c == 10)) d ≡ true
no_break [] h = refl
no_break (c ∷ d) h = ground (arith, h, no_break d)

no_bracket : (d : Text) → all is_safe d ≡ true → all (λ c. not (c == b']')) d ≡ true
no_bracket [] h = refl
no_bracket (c ∷ d) h = ground (arith, h, no_bracket d)

-- The attachments of a message, each behind two breaks.
unfoldable pub blocks : List AssetOut → Text
blocks [] = []
blocks (a ∷ others) = 10 ∷ 10 ∷ (format_image_attachment a ++ blocks others)

until-blocks : (others : List AssetOut) → until 10 (blocks others) ≡ ([], blocks others)
unfolding until blocks
until-blocks [] = refl
until-blocks (a ∷ others) = refl

-- Where the pattern cannot begin: text other than a bracket follows the breaks.
unfoldable pub begins_plain : Text → Bool
begins_plain [] = false
begins_plain (c ∷ s) = not (c == b'[')

-- A text without the bracket, whose breaks are followed by more.
unfoldable pub is_body : Text → Bool
unfolding begins_plain after_breaks
is_body [] = true
is_body (c ∷ s) = begins_plain (after_breaks (c ∷ s)) && is_body s

unopened :
    (p : Text) (c : ℕ) (s : Text) → not (c == b'[') ≡ true → literal (b'[' ∷ p) (c ∷ s) ≡ none
unfolding literal starts_with
unopened p c s h =
    if_rec (λ o. o ≡ none) (c == b'[' && starts_with s p) (λ e. ground (arith, h, e)) (λ e. refl)

pub literal-body :
    (p s tail : Text)
    → begins_plain (after_breaks s) ≡ true
    → literal (b'[' ∷ p) (after_breaks (s ++ tail)) ≡ none
unfolding begins_plain after_breaks literal starts_with
literal-body p [] tail h = ground (arith, h)
literal-body p (c ∷ s) tail h = elim (Bool-cases (c == 10)) [
  | inl e ↦ rw e (literal-body p s tail (rw e at h))
  | inr e ↦ rw e (unopened p c (s ++ tail) (rw e at h))
]

-- The description of an image, if it has one.
unfoldable pub given : Text → Option Text
given [] = none
given (c ∷ s) = some (c ∷ s)

description_of-described :
    (d : Text) (others : List AssetOut)
    → all is_safe d ≡ true
    → description_of (described d ++ blocks others) ≡ (given d, blocks others)
unfolding description_of described given is_empty blocks
description_of-described [] [] h = refl
description_of-described [] (a ∷ others) h = refl
description_of-described (c ∷ d) others h =
    rw (until-append 10 (c ∷ d) (blocks others) (no_break (c ∷ d) h), until-blocks others)
      (ap (λ t. (some (c ∷ t), blocks others)) (append-nil d))

module _ (normalize : Text → Text) where
  -- What the other side is to see of an asset.
  unfoldable pub seen : AssetOut → AttachedImage
  seen a = record {
    filename = sanitize_attachment_line a.filename;
    url = normalize a.url;
    description = given (sanitize_attachment_line (get_or a.description []));
  }

  -- An asset that the pattern can read: a name is left, and a URL without a closing bracket.
  unfoldable pub IsReadable : AssetOut → Type 0
  IsReadable a =
      (is_empty (sanitize_attachment_line a.filename) ≡ false)
      × (is_empty a.url ≡ false)
      × (all (λ c. not (c == b')')) a.url ≡ true)

  linked-url :
      (f u d : Text) (others : List AssetOut)
      → is_empty u ≡ false
      → all (λ c. not (c == b')')) u ≡ true
      → all is_safe d ≡ true
      → linked normalize f (some (u ++ (b')' ∷ (described d ++ blocks others))))
        ≡ some (record { filename = f; url = normalize u; description = given d }, blocks others)
  unfolding linked closed until literal starts_with
  linked-url f u d others full link safe =
      rw
        (
          until-append b')' u (b')' ∷ (described d ++ blocks others)) link,
          append-nil u,
          full,
          description_of-described d others safe,
        )
        refl

  named-filename :
      (f u d : Text) (others : List AssetOut)
      → is_empty f ≡ false
      → all is_safe f ≡ true
      → is_empty u ≡ false
      → all (λ c. not (c == b')')) u ≡ true
      → all is_safe d ≡ true
      → named normalize (some (f ++ (b']' ∷ b'(' ∷ (u ++ (b')' ∷ (described d ++ blocks others))))))
        ≡ some (record { filename = f; url = normalize u; description = given d }, blocks others)
  unfolding named until literal starts_with
  named-filename f u d others name clean full link safe =
      rw
        (
          until-append b']' f (b']' ∷ b'(' ∷ (u ++ (b')' ∷ (described d ++ blocks others))))
              (no_bracket f clean),
          append-nil f,
          name,
        )
        (linked-url f u d others full link safe)

  pub match_image-format :
      (a : AssetOut) (others : List AssetOut)
      → IsReadable a
      → match_image normalize (10 ∷ 10 ∷ (format_image_attachment a ++ blocks others))
        ≡ some (seen a, blocks others)
  unfolding match_image format_image_attachment after_breaks literal starts_with IsReadable seen
  match_image-format a others (name, url, link) =
      let f = sanitize_attachment_line a.filename in
      let d = sanitize_attachment_line (get_or a.description []) in
      ap (λ t. named normalize (some t))
        (append_assoc f (b']' ∷ b'(' ∷ (a.url ++ (b')' ∷ described d))) (blocks others)
          ∙ ap (λ t. f ++ (b']' ∷ b'(' ∷ t))
              (append_assoc a.url (b')' ∷ described d) (blocks others)))
      ∙ named-filename f a.url d others name (all-sanitize_attachment_line a.filename) url link
          (all-sanitize_attachment_line (get_or a.description []))
