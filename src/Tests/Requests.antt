-- ===== src/Tests/Requests.antt =====
-- The classification of requests, at concrete inputs.
use ad_block.Base.{◌≡◌, refl, none, some, if◌then◌else◌}
use ad_block.Adblock.Classify.{HttpRequest, request_type, source_url}
use ad_block.Text.{Text, codes, text_eq}

-- A navigation that asks for pages before images, with no referer.
abbrev navigation : HttpRequest
navigation = record {
  method = codes "GET";
  header =
      λ name. if text_eq name (codes "accept") then some (codes "text/html,image/webp") else none;
}

navigation_type : request_type navigation ≡ codes "document"
unfolding request_type text_eq ad_block.Text.Pieces.split_once_at ad_block.Text.strip_prefix
navigation_type = refl

navigation_source :
    source_url navigation (codes "https://a.test/") (codes "document") ≡ codes "https://a.test/"
unfolding source_url text_eq
navigation_source = refl
