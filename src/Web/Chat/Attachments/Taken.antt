-- ===== src/Web/Chat/Attachments/Taken.antt =====
-- What is taken out of a message with attached images.
use rag_chat_cli.Prelude.{
  ℕ, zero, suc, ◌≤◌, true, List, [], ◌∷◌, ◌++◌, append-nil, map, all, All, Option, none, some,
  length, length-append, ◌≡◌, refl, sym, ap, ◌∙◌, arith,
}
use rag_chat_cli.Text.{is_space, Text, codes, is_empty, join, trim_start, trim}
use rag_chat_cli.Text.Trims.{IsTight, trim-IsTight, trim-append}
use rag_chat_cli.Web.Chat.Attachments.{
  AssetOut, AttachedImage, format_image_attachment, opening, build_outgoing_content, after_breaks,
  literal, named, match_image, take_out, split_attached_images,
}
use rag_chat_cli.Web.Chat.Attachments.Matches.{
  blocks, begins_plain, is_body, literal-body, seen, IsReadable, match_image-format,
}

module _ (normalize : Text → Text) where
  stepped : (fuel c : ℕ) (s : Text) → Option (AttachedImage × Text) → List AttachedImage × Text
  stepped fuel c s none = ((take_out normalize fuel s).0, c ∷ (take_out normalize fuel s).1)
  stepped fuel c s (some (image, rest)) =
      (image ∷ (take_out normalize fuel rest).0, 10 ∷ (take_out normalize fuel rest).1)

  take_out-stepped :
      (fuel c : ℕ) (s : Text)
      → take_out normalize (suc fuel) (c ∷ s) ≡ stepped fuel c s (match_image normalize (c ∷ s))
  unfolding take_out stepped
  take_out-stepped fuel c s = refl

  taken_first :
      (fuel c : ℕ) (s : Text) (image : AttachedImage) (rest : Text)
      → match_image normalize (c ∷ s) ≡ some (image, rest)
      → take_out normalize (suc fuel) (c ∷ s)
        ≡ (image ∷ (take_out normalize fuel rest).0, 10 ∷ (take_out normalize fuel rest).1)
  unfolding stepped
  taken_first fuel c s image rest e = take_out-stepped fuel c s ∙ ap (stepped fuel c s) e

  left_alone :
      (fuel c : ℕ) (s : Text)
      → match_image normalize (c ∷ s) ≡ none
      → take_out normalize (suc fuel) (c ∷ s)
        ≡ ((take_out normalize fuel s).0, c ∷ (take_out normalize fuel s).1)
  unfolding stepped
  left_alone fuel c s e = take_out-stepped fuel c s ∙ ap (stepped fuel c s) e

  breaks : List AssetOut → Text
  breaks others = map (λ a. 10) others

  take_out-blocks :
      (fuel : ℕ) (assets : List AssetOut)
      → length (blocks assets) ≤ fuel
      → All (IsReadable normalize) assets
      → take_out normalize fuel (blocks assets) ≡ (map (seen normalize) assets, breaks assets)
  unfolding take_out blocks breaks
  take_out-blocks zero [] h r = refl
  take_out-blocks (suc fuel) [] h r = refl
  take_out-blocks zero (a ∷ others) h r = absurd (omega arith)
  take_out-blocks (suc fuel) (a ∷ others) h (p, r) =
      taken_first fuel 10 (10 ∷ (format_image_attachment a ++ blocks others)) ((seen normalize) a)
        (blocks others) (match_image-format normalize a others p)
      ∙ ap (λ o. ((seen normalize) a ∷ o.0, 10 ∷ o.1))
          (take_out-blocks fuel others
            (omega (arith, h, length-append (format_image_attachment a) (blocks others))) r)

  match_image-body :
      (c : ℕ) (s tail : Text)
      → begins_plain (after_breaks (c ∷ s)) ≡ true
      → match_image normalize (c ∷ (s ++ tail)) ≡ none
  unfolding match_image named literal
  match_image-body c s tail h =
      ap (named normalize) (literal-body (codes "Attached image: ") (c ∷ s) tail h)

  take_out-body :
      (fuel : ℕ) (t : Text) (assets : List AssetOut)
      → length (t ++ blocks assets) ≤ fuel
      → is_body t ≡ true
      → All (IsReadable normalize) assets
      → take_out normalize fuel (t ++ blocks assets)
        ≡ (map (seen normalize) assets, t ++ breaks assets)
  unfolding is_body
  take_out-body fuel [] assets h b r = take_out-blocks fuel assets h r
  take_out-body zero (c ∷ t) assets h b r = absurd (omega arith)
  take_out-body (suc fuel) (c ∷ t) assets h b r =
      left_alone fuel c (t ++ blocks assets)
        (match_image-body c t (blocks assets) (ground (arith, b)))
      ∙ ap (λ o. (o.0, c ∷ o.1)) (take_out-body fuel t assets (omega arith) (ground (arith, b)) r)

join-blocks :
    (a : AssetOut) (others : List AssetOut)
    → 10 ∷ 10 ∷ join (10 ∷ 10 ∷ []) (map format_image_attachment (a ∷ others)) ≡ blocks (a ∷ others)
unfolding join blocks
join-blocks a [] = ap (λ t. 10 ∷ 10 ∷ t) (sym (append-nil (format_image_attachment a)))
join-blocks a (b ∷ others) =
    ap (λ t. 10 ∷ 10 ∷ (format_image_attachment a ++ t)) (join-blocks b others)

-- The text that a message opens with.
unfoldable pub written : Text → List AssetOut → Text
unfolding opening trim
written input [] = trim input
written input (a ∷ others) = opening (trim input)

build_outgoing_content-blocks :
    (input : Text) (assets : List AssetOut)
    → build_outgoing_content input assets ≡ written input assets ++ blocks assets
unfolding build_outgoing_content written blocks join format_image_attachment is_empty
build_outgoing_content-blocks input [] = sym (append-nil (trim input))
build_outgoing_content-blocks input (a ∷ []) =
    ap (λ t. opening (trim input) ++ t) (join-blocks a [])
build_outgoing_content-blocks input (a ∷ b ∷ others) =
    ap (λ t. opening (trim input) ++ t) (join-blocks a (b ∷ others))

opening-body : (t : Text) → is_body t ≡ true → is_body (opening t) ≡ true
unfolding opening is_body
opening-body [] h = refl
opening-body (c ∷ t) h = h

opening-IsTight : (t : Text) → IsTight t → IsTight (opening t)
unfolding opening trim_start is_space
opening-IsTight [] h = (refl, refl)
opening-IsTight (c ∷ t) h = h

written-body :
    (input : Text) (assets : List AssetOut)
    → is_body (trim input) ≡ true
    → is_body (written input assets) ≡ true
unfolding written
written-body input [] h = h
written-body input (a ∷ others) h = opening-body (trim input) h

written-IsTight : (input : Text) (assets : List AssetOut) → IsTight (written input assets)
unfolding written
written-IsTight input [] = trim-IsTight input
written-IsTight input (a ∷ others) = opening-IsTight (trim input) (trim-IsTight input)

module _ (normalize : Text → Text) where
  all-breaks : (assets : List AssetOut) → all is_space (breaks normalize assets) ≡ true
  unfolding breaks is_space
  all-breaks [] = refl
  all-breaks (a ∷ others) = all-breaks others

  -- Where the typed text has no bracket and more text behind each of its breaks once it is trimmed, and
  -- every image has a name once it is made safe and a URL without a closing bracket, what is written is
  -- read back: the images with their safe names and descriptions, and the trimmed text, or the request
  -- that stands for an empty one where there are images.
  pub split_attached_images-build_outgoing_content :
      (input : Text) (assets : List AssetOut)
      → is_body (trim input) ≡ true
      → All (IsReadable normalize) assets
      → split_attached_images normalize (build_outgoing_content input assets)
        ≡ (written input assets, map (seen normalize) assets)
  unfolding split_attached_images
  split_attached_images-build_outgoing_content input assets b r =
      let m = build_outgoing_content input assets in
      let shape = build_outgoing_content-blocks input assets in
      ap (λ o. (trim o.1, o.0))
        (ap (λ t. take_out normalize (length m) t) shape
          ∙ take_out-body normalize (length m) (written input assets) assets
              (omega (arith, ap length shape)) (written-body input assets b) r)
      ∙ ap (λ t. (t, map (seen normalize) assets))
          (trim-append (written input assets) (breaks normalize assets)
            (written-IsTight input assets) (all-breaks assets))
