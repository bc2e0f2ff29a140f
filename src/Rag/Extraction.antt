-- ===== src/Rag/Extraction.antt =====
-- backend/app/rag/extraction.py. The decoding of UTF-8 and pypdf are parameters: each of pypdf's steps
-- may raise, which is None here.
use pack_verse.Base.{
  ℕ, String, Bool, true, false, Option, none, some, List, [], ◌∷◌, Result, ok, err, ◌==◌, string_eq,
  ℕ_eq, elem, if◌then◌else◌, map,
}
use Prim.Native.String.{◌++◌}
use pack_verse.Base.Dict.{or_else}
use pack_verse.Errors.{ExtractionError, unsupported_content_type, text_decoding, pdf_extraction}

pub record TextLibraries : Type 1 where
  pub Reader : Type 0
  pub decode_utf8 : List ℕ → Option String
  pub open_pdf : List ℕ → Option Reader
  pub is_encrypted : Reader → Option Bool
  -- `reader.decrypt("")`
  pub decrypt_empty : Reader → Option ℕ
  pub page_texts : Reader → Option (List (Option String))

abbrev pub plain_text_content_types : List String
plain_text_content_types = "text/plain" ∷ "text/markdown" ∷ []

abbrev pub supported_content_types : List String
supported_content_types = "application/pdf" ∷ plain_text_content_types

-- `separator.join(texts)`
abbrev pub join_texts : String → List String → String
join_texts separator [] = ""
join_texts separator (t ∷ []) = t
join_texts separator (t ∷ u ∷ ts) = t ++ (separator ++ join_texts separator (u ∷ ts))

module _ (libraries : TextLibraries) where
  open libraries use {Reader, decode_utf8, open_pdf, is_encrypted, decrypt_empty, page_texts}

  abbrev pub decoded : Option String → Result ExtractionError String
  decoded none = err text_decoding
  decoded (some text) = ok text

  unfoldable pub extract_text_from_plain : List ℕ → Result ExtractionError String
  extract_text_from_plain content = decoded (decode_utf8 content)

  abbrev pub pages_of : Option (List (Option String)) → Result ExtractionError String
  pages_of none = err pdf_extraction
  pages_of (some pages) = ok (join_texts "\n\n" (map (λ page. or_else page "") pages))

  abbrev pub unlocked : Option ℕ → Option (List (Option String)) → Result ExtractionError String
  unlocked none pages = err pdf_extraction
  unlocked (some result) pages = if result == 0 then err pdf_extraction else pages_of pages

  abbrev pub read_pages : Reader → Option Bool → Result ExtractionError String
  read_pages reader none = err pdf_extraction
  read_pages reader (some true) = unlocked (decrypt_empty reader) (page_texts reader)
  read_pages reader (some false) = pages_of (page_texts reader)

  abbrev pub read_pdf : Option Reader → Result ExtractionError String
  read_pdf none = err pdf_extraction
  read_pdf (some reader) = read_pages reader (is_encrypted reader)

  unfoldable pub extract_text_from_pdf : List ℕ → Result ExtractionError String
  extract_text_from_pdf content = read_pdf (open_pdf content)

  unfoldable pub extract_text : List ℕ → String → Result ExtractionError String
  unfolding extract_text_from_pdf extract_text_from_plain
  extract_text content content_type =
      if content_type == "application/pdf"
      then extract_text_from_pdf content
      else if elem content_type plain_text_content_types
      then extract_text_from_plain content
      else err (unsupported_content_type content_type)
