-- ===== src/Context/Render.antt =====
-- crates/hansa/src/context.rs: labels, the renderers of `ContextBundle` and `csv_field`.
use hansa.Prelude.{
  ℕ, ◌/◌, Bool, true, false, not, ◌||◌, List, [], ◌∷◌, ◌++◌, map, ltb, ◌==◌, if◌then◌else◌, length,
  take,
}
use hansa.Prelude.Bytes.{Bytes}
use hansa.Floats.{Floats}
use hansa.Text.{Chars, codes, join}
use hansa.Hex.{hex, hex_digit}
use hansa.HeadCache.{decimal}
use hansa.Membrane.Query.{HitOrigin, local, remote}
use hansa.Context.Bundle.{ContextItem, ContextBundle}

-- The first two bytes, as `{:02x}{:02x}`.
unfoldable pub short_id : Bytes → Chars
unfolding hex
short_id id = hex (take 2 id)

unfoldable pub origin_label : HitOrigin → Chars
unfolding short_id
origin_label local = codes "LOCAL"
origin_label (remote tenant_id) = codes "peer-" ++ short_id tenant_id

-- `std::char::from_digit((b >> 4) as u32, 16)` of the first byte.
unfoldable pub peer_mark : Bytes → ℕ
unfolding hex_digit
peer_mark [] = b'?'
peer_mark (b ∷ id) = if ltb (b / 16) 16 then hex_digit (b / 16) else b'?'

unfoldable pub mark : HitOrigin → ℕ
unfolding peer_mark
mark local = b'L'
mark (remote tenant_id) = peer_mark tenant_id

-- `s.contains(c)`
unfoldable pub has_char : ℕ → Chars → Bool
has_char c [] = false
has_char c (d ∷ s) = d == c || has_char c s

-- `s.replace('"', "\"\"")`
unfoldable pub escape : Chars → Chars
escape [] = []
escape (c ∷ s) = if c == b'"' then b'"' ∷ b'"' ∷ escape s else c ∷ escape s

unfoldable pub csv_field : Chars → Chars
unfolding has_char escape
csv_field s =
    if has_char b',' s || (has_char b'"' s || has_char b'\n' s)
    then b'"' ∷ (escape s ++ (b'"' ∷ []))
    else s

-- A line of `str::lines` loses the carriage return before its end.
unfoldable pub without_return : Chars → Chars
without_return [] = []
without_return (c ∷ []) = if c == 13 then [] else c ∷ []
without_return (c ∷ d ∷ s) = c ∷ without_return (d ∷ s)

-- `str::lines`; `current` is what stands before on the line.
unfoldable pub lines_from : Chars → Chars → List Chars
unfolding without_return
lines_from [] [] = []
lines_from (c ∷ current) [] = (c ∷ current) ∷ []
lines_from current (c ∷ s) =
    let ended = without_return current ∷ lines_from [] s in
    let on = lines_from (current ++ (c ∷ [])) s in if c == b'\n' then ended else on

module _ (f : Floats) where
  open f use {decimals}

  unfoldable pub sources_label_of : HitOrigin → List HitOrigin → Chars
  unfolding origin_label join
  sources_label_of origin (first ∷ second ∷ rest) =
      origin_label first ++ codes " + " ++ join (codes ", ") (map origin_label (second ∷ rest))
  sources_label_of origin sources = origin_label origin

  unfoldable pub sources_label : ContextItem f → Chars
  unfolding sources_label_of
  sources_label item = sources_label_of item.origin item.sources

  -- `fmt` of each item, one after the other.
  unfoldable pub render_each : (ContextItem f → Chars) → List (ContextItem f) → Chars
  render_each fmt [] = []
  render_each fmt (item ∷ items) = fmt item ++ render_each fmt items

  unfoldable pub render_with : ContextBundle f → (ContextItem f → Chars) → Chars
  unfolding render_each
  render_with bundle fmt = render_each fmt bundle.items

  unfoldable pub quote_lines : List Chars → Chars
  quote_lines [] = []
  quote_lines (line ∷ lines) = codes "> " ++ line ++ codes "\n" ++ quote_lines lines

  unfoldable pub sources_part : ContextItem f → Chars
  sources_part item =
      if ltb 1 (length item.sources)
      then codes ", " ++ decimal (length item.sources) ++ codes " sources"
      else []

  unfoldable pub markdown_item : ContextItem f → Chars
  unfolding sources_label sources_part quote_lines lines_from
  markdown_item item =
      codes "### "
      ++ sources_label item
      ++ codes " (sim="
      ++ decimals 3 item.similarity
      ++ codes ", ~"
      ++ decimal item.tokens
      ++ codes " tokens"
      ++ sources_part item
      ++ codes ")\n\n"
      ++ quote_lines (lines_from [] item.content)
      ++ codes "\n"

  unfoldable pub render_markdown : ContextBundle f → Chars
  unfolding render_each markdown_item
  render_markdown bundle = render_each markdown_item bundle.items

  unfoldable pub compact_item : ContextItem f → Chars
  unfolding mark
  compact_item item =
      codes "[" ++ (mark item.origin ∷ []) ++ codes "] " ++ item.content ++ codes "\n"

  unfoldable pub render_compact : ContextBundle f → Chars
  unfolding render_each compact_item
  render_compact bundle = render_each compact_item bundle.items

  unfoldable pub toon_row : ContextItem f → Chars
  unfolding mark csv_field
  toon_row item =
      codes "  "
      ++ (mark item.origin
          ∷ (codes ","
              ++ (decimals 2 item.similarity
                  ++ (codes "," ++ (csv_field item.content ++ codes "\n")))))

  unfoldable pub render_toon : ContextBundle f → Chars
  unfolding render_each toon_row
  render_toon bundle =
      codes "items["
      ++ (decimal (length bundle.items)
          ++ (codes "]:\n" ++ (codes "  src,sim,text\n" ++ render_each toon_row bundle.items)))

  unfoldable pub plain_item : ContextItem f → Chars
  unfolding origin_label
  plain_item item =
      codes "[" ++ origin_label item.origin ++ codes "] " ++ item.content ++ codes "\n\n"

  unfoldable pub render_plain : ContextBundle f → Chars
  unfolding render_each plain_item
  render_plain bundle = render_each plain_item bundle.items

  unfoldable pub len : ContextBundle f → ℕ
  len bundle = length bundle.items

  abbrev is_local : HitOrigin → Bool
  is_local local = true
  is_local (remote tenant_id) = false

  unfoldable pub items_where : (HitOrigin → Bool) → List (ContextItem f) → List (ContextItem f)
  items_where test [] = []
  items_where test (item ∷ items) =
      let rest = items_where test items in if test item.origin then item ∷ rest else rest

  unfoldable pub local_items : ContextBundle f → List (ContextItem f)
  unfolding items_where
  local_items bundle = items_where is_local bundle.items

  unfoldable pub remote_items : ContextBundle f → List (ContextItem f)
  unfolding items_where
  remote_items bundle = items_where (λ origin. not (is_local origin)) bundle.items
