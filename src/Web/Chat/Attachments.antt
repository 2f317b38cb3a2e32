-- ===== src/Web/Chat/Attachments.antt =====
-- Messages with attached images: websites/src/features/chat/utils/outgoing-content.ts writes them into
-- the text, and split-attached-images.ts beside it takes them out. What normalizeAssetUrl makes of a URL
-- is an argument.
pub mod Matches
pub mod Taken
use rag_chat_cli.Prelude.{
  ℕ, zero, suc, Bool, true, false, not, ◌&&◌, ◌||◌, List, [], ◌∷◌, ◌++◌, map, Option, none, some,
  get_or, length, drop, ◌==◌, if◌then◌else◌,
}
use rag_chat_cli.Text.{Text, codes, is_empty, starts_with, join, trim}

pub record AssetOut : Type 0 where
  pub filename : Text
  pub url : Text
  pub description : Option Text

pub record AttachedImage : Type 0 where
  pub filename : Text
  pub url : Text
  pub description : Option Text

-- `[\r\n\]]`
abbrev pub is_unsafe : ℕ → Bool
is_unsafe c = c == 13 || c == 10 || c == b']'

-- Each run of unsafe units becomes a blank; `inside` tells that one has begun.
unfoldable pub blanked : (inside : Bool) → Text → Text
blanked inside [] = []
blanked inside (c ∷ s) =
    let more = blanked true s in
    let next_unit = c ∷ blanked false s in
    if is_unsafe c then (if inside then more else b' ' ∷ more) else next_unit

unfoldable pub sanitize_attachment_line : Text → Text
unfolding blanked trim
sanitize_attachment_line value = trim (blanked false value)

-- `description ? "\n" + description : ""`
unfoldable pub described : Text → Text
described [] = []
described (c ∷ s) = 10 ∷ c ∷ s

unfoldable pub format_image_attachment : AssetOut → Text
unfolding sanitize_attachment_line described
format_image_attachment asset =
    codes "[Attached image: "
    ++ (sanitize_attachment_line asset.filename
        ++ (codes "]("
            ++ (asset.url
                ++ (b')' ∷ described (sanitize_attachment_line (get_or asset.description []))))))

-- `text || "Please review the attached image."`
unfoldable pub opening : Text → Text
opening [] = codes "Please review the attached image."
opening (c ∷ s) = c ∷ s

unfoldable pub build_outgoing_content : Text → List AssetOut → Text
unfolding format_image_attachment opening join trim is_empty
build_outgoing_content input assets =
    let attachment_text = join (10 ∷ 10 ∷ []) (map format_image_attachment assets) in
    if is_empty attachment_text
    then trim input
    else opening (trim input) ++ (10 ∷ 10 ∷ attachment_text)

-- `\n*`
unfoldable pub after_breaks : Text → Text
after_breaks [] = []
after_breaks (c ∷ s) = let rest = after_breaks s in if c == 10 then rest else c ∷ s

-- `[^stop]*`, and what is behind.
unfoldable pub until : (stop : ℕ) → Text → Text × Text
until stop [] = ([], [])
until stop (c ∷ s) =
    let more = until stop s in if c == stop then ([], c ∷ s) else (c ∷ more.0, more.1)

-- A literal of the pattern.
unfoldable pub literal : Text → Text → Option Text
unfolding starts_with
literal p s = if starts_with s p then some (drop (length p) s) else none

-- `(?:\n([^\n]+))?`
unfoldable pub description_of : Text → Option Text × Text
unfolding until is_empty
description_of [] = (none, [])
description_of (c ∷ s) =
    let line = until 10 s in
    if c == 10 && not (is_empty line.0) then (some line.0, line.1) else (none, c ∷ s)

module _ (normalize : Text → Text) where
  -- From the `)` on.
  unfoldable pub closed : (filename url : Text) → Option Text → Option (AttachedImage × Text)
  unfolding description_of
  closed filename url none = none
  closed filename url (some s) =
      let d = description_of s in
      some (record { filename = filename; url = normalize url; description = d.0 }, d.1)

  -- From the `](` on.
  unfoldable pub linked : (filename : Text) → Option Text → Option (AttachedImage × Text)
  unfolding closed until literal is_empty
  linked filename none = none
  linked filename (some s) =
      let url = until b')' s in
      let found = closed filename url.0 (literal (b')' ∷ []) url.1) in
      if is_empty url.0 then none else found

  -- From the filename on.
  unfoldable pub named : Option Text → Option (AttachedImage × Text)
  unfolding linked until literal is_empty
  named none = none
  named (some s) =
      let filename = until b']' s in
      let found = linked filename.0 (literal (codes "](") filename.1) in
      if is_empty filename.0 then none else found

  -- `ATTACHED_IMAGE_RE` at the start of a text.
  unfoldable pub match_image : Text → Option (AttachedImage × Text)
  unfolding named after_breaks literal
  match_image s = named (literal (codes "[Attached image: ") (after_breaks s))

  -- `replace`, on fuel: a match takes at least one unit.
  unfoldable pub take_out : (fuel : ℕ) → Text → List AttachedImage × Text
  unfolding match_image
  take_out zero s = ([], s)
  take_out (suc fuel) [] = ([], [])
  take_out (suc fuel) (c ∷ s) = elim (match_image (c ∷ s)) [
    | none ↦ let later = take_out fuel s in (later.0, c ∷ later.1)
    | some (image, rest) ↦ let later = take_out fuel rest in (image ∷ later.0, 10 ∷ later.1)
  ]

  unfoldable pub split_attached_images : Text → Text × List AttachedImage
  unfolding take_out trim
  split_attached_images content =
      let taken = take_out (length content) content in (trim taken.1, taken.0)
