-- ===== src/Tests/Web/Texts.antt =====
-- Messages with attached images at concrete inputs.
use rag_chat_cli.Prelude.{[], ◌∷◌, some, ◌≡◌, refl}
use rag_chat_cli.Text.{codes, is_empty, is_space, trim, trim_start}
use rag_chat_cli.Web.Chat.Attachments.{
  AssetOut, build_outgoing_content, split_attached_images, sanitize_attachment_line, blanked,
  opening, after_breaks,
}
use rag_chat_cli.Web.Chat.Attachments.Matches.{is_body, begins_plain, seen, given, IsReadable}
use rag_chat_cli.Web.Chat.Attachments.Taken.{written, split_attached_images-build_outgoing_content}

-- A picture whose name has a bracket, with a description in two lines.
abbrev cat : AssetOut
cat = record {
  filename = codes "a]b.png";
  url = codes "/assets/1/file";
  description = some (codes "two\nlines");
}

split_attached_images-build_outgoing_content_example :
    split_attached_images (λ u. u) (build_outgoing_content (codes " see: ") (cat ∷ [])) ≡ (
      codes "see:",
      record {
        filename = codes "a b.png";
        url = codes "/assets/1/file";
        description = some (codes "two lines");
      }
          ∷ [],
    )
unfolding written opening seen given IsReadable sanitize_attachment_line blanked trim trim_start
    is_space is_body begins_plain after_breaks is_empty
split_attached_images-build_outgoing_content_example =
    split_attached_images-build_outgoing_content (λ u. u) (codes " see: ") (cat ∷ []) refl
      ((refl, refl, refl), tt)
